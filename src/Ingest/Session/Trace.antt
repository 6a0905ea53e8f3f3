-- ===== src/Ingest/Session/Trace.antt =====
-- internal/ingest/server.go: the packets that a session takes off its input, and what each does.
use enisa_sbd_example.Common.{
  ℕ, ◌≡◌, ◌≢◌, ◌⊎◌, Option, none, some, List, [], ◌∷◌, ◌++◌, Bytes, pos, ok, err,
}
use enisa_sbd_example.Mqtt.Wire.{
  IoError, Error, io, Stream, max_packet_size, connect_type, publish_type, pingreq_type,
  pingresp_type, disconnect_type,
}
use enisa_sbd_example.Mqtt.Packet.{
  Packet, read, write, write_conn_ack, write_pub_ack, conn_accepted,
}
use enisa_sbd_example.Mqtt.Connect.{Connect, decode_connect}
use enisa_sbd_example.Mqtt.Publish.{Publish, decode_publish}
use enisa_sbd_example.Store.Model.{Time, Store}
use enisa_sbd_example.Ingest.Conn.{
  SessionError, wire, unexpected_packet, device_mismatch, Conn, topic_for,
}
use enisa_sbd_example.Ingest.Sample.{Sample, record_sample}
use enisa_sbd_example.Ingest.Sample.Accepted.{IsRecorded}

-- The next packet of the input, and the input after it.
abbrev pub IsNext : Stream → Packet → Stream → Type 0
IsNext i p j = read i (pos max_packet_size) ≡ ok (p, j)

module _ (decode : Bytes → Option Sample) (device_id : Bytes) where
  -- The next packet of the input is a PUBLISH of this message, under the topic of the session's
  -- device, and its sample takes the store s to the store t.
  pub record IsTaken (i j : Stream) (m : Publish) (now : Time) (s t : Store) : Type 0 where
    pub packet : Packet
    pub arrived : IsNext i packet j
    pub is_publish : packet.type ≡ publish_type
    pub decoded : decode_publish packet.flags packet.body ≡ ok m
    pub own_topic : m.topic ≡ topic_for device_id
    pub sampled : IsRecorded decode now device_id m.payload s t

  -- The rounds after which the loop goes on, from a store, an input and the packets written before
  -- to those after. Each takes the next packet off the input: a PINGREQ, which is answered; a PUBLISH
  -- without QoS 1, whose sample is stored; or one with QoS 1, whose sample is stored and whose
  -- packet id is acknowledged.
  pub data Served (s : Store) (i : Stream) (w : List Bytes)
      : Store → Stream → List Bytes → Type 0 where
    idle : Served s i w s i w
    ponged :
        {t : Store} {j k : Stream} {v : List Bytes} (p : Packet) (b : Bytes)
        → IsNext j p k
        → p.type ≡ pingreq_type
        → write pingresp_type 0 [] ≡ ok b
        → Served s i w t j v
        → Served s i w t k (v ++ b ∷ [])
    stored :
        {t u : Store} {j k : Stream} {v : List Bytes} (now : Time) (m : Publish)
        → IsTaken j k m now t u
        → m.qos ≢ 1
        → Served s i w t j v
        → Served s i w u k v
    acknowledged :
        {t u : Store} {j k : Stream} {v : List Bytes} (now : Time) (m : Publish) (b : Bytes)
        → IsTaken j k m now t u
        → m.qos ≡ 1
        → write_pub_ack m.packet_id ≡ ok b
        → Served s i w t j v
        → Served s i w u k (v ++ b ∷ [])

  -- A packet that the loop refuses, with the error that ends the session: a PUBLISH that does not
  -- decode, that is under a topic other than the device's own, or whose sample is not recorded; or a
  -- packet that is none of PUBLISH, PINGREQ and DISCONNECT.
  pub data IsRefused (s : Store) (p : Packet) : SessionError → Type 0 where
    undecodable :
        (e : Error)
        → p.type ≡ publish_type
        → decode_publish p.flags p.body ≡ err e
        → IsRefused s p (wire e)
    misdirected :
        (m : Publish)
        → p.type ≡ publish_type
        → decode_publish p.flags p.body ≡ ok m
        → m.topic ≢ topic_for device_id
        → IsRefused s p device_mismatch
    unrecorded :
        (now : Time) (m : Publish) (e : SessionError)
        → p.type ≡ publish_type
        → decode_publish p.flags p.body ≡ ok m
        → m.topic ≡ topic_for device_id
        → record_sample decode s now device_id m.payload ≡ err e
        → IsRefused s p e
    unexpected :
        p.type ≢ publish_type
        → p.type ≢ pingreq_type
        → p.type ≢ disconnect_type
        → IsRefused s p (unexpected_packet p.type)

  -- The round in which the loop ends: the next packet is a DISCONNECT; or the deadline cannot be set,
  -- no packet can be read, the next packet is refused, a PINGREQ cannot be answered, or the
  -- acknowledgement of a stored sample cannot be written.
  pub data Ended (s : Store) (i : Stream) (w : List Bytes)
      : Option SessionError → Store → List Bytes → Type 0 where
    left :
        (p : Packet) (j : Stream) → IsNext i p j → p.type ≡ disconnect_type → Ended s i w none s w
    no_deadline : (e : IoError) → Ended s i w (some (wire (io e))) s w
    unread : (e : Error) → read i (pos max_packet_size) ≡ err e → Ended s i w (some (wire e)) s w
    rejected :
        (p : Packet) (j : Stream) (e : SessionError)
        → IsNext i p j
        → IsRefused s p e
        → Ended s i w (some e) s w
    unanswered :
        (p : Packet) (j : Stream) (e : SessionError)
        → IsNext i p j
        → p.type ≡ pingreq_type
        → Ended s i w (some e) s w
    unacknowledged :
        {t : Store} (j : Stream) (now : Time) (m : Publish) (e : SessionError)
        → IsTaken i j m now s t
        → m.qos ≡ 1
        → Ended s i w (some e) t w

  -- The whole loop.
  pub data Finished (s : Store) (i : Stream) (w : List Bytes) (e : Option SessionError) (u : Store)
      (x : List Bytes) : Type 0 where
    finished :
        {t : Store} {j : Stream} {v : List Bytes}
        → Served s i w t j v
        → Ended t j v e u x
        → Finished s i w e u x

  -- What the whole session did: refused, it stored nothing and wrote one CONNACK at most, which does
  -- not accept; accepted, its first packet was a CONNECT that decodes, it wrote a CONNACK that
  -- accepts and then went through its loop over the packets that follow.
  pub data SessionPath (s : Store) (conn : Conn) (out : Option SessionError × Store × Conn)
      : Type 0 where
    turned_away :
        (e : SessionError)
        → out.0 ≡ some e
        → out.1 ≡ s
        → (out.2.written ≡ conn.written)
          ⊎ ((code : ℕ) × (b : Bytes) × (code ≢ conn_accepted)
              × (write_conn_ack code ≡ ok b)
              × (out.2.written ≡ conn.written ++ b ∷ []))
        → SessionPath s conn out
    welcomed :
        (first : Packet) (rest : Stream) (greeting : Connect) (b : Bytes)
        → IsNext conn.input first rest
        → first.type ≡ connect_type
        → decode_connect first.body ≡ ok greeting
        → write_conn_ack conn_accepted ≡ ok b
        → Finished s rest (conn.written ++ b ∷ []) out.0 out.1 out.2.written
        → SessionPath s conn out

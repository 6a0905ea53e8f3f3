-- ===== src/Ingest/Session/Published.antt =====
-- internal/ingest/server.go and internal/mqtt/packet.go: a sample on the wire of a device's connection,
-- and the round of the session that reads it.
use enisa_sbd_example.Common.{
  ◌%◌, ◌^◌, ◌<◌, ◌≤◌, ◌≡◌, ◌≢◌, ◌∙◌, refl, ap, inl, inr, Bool-cases, false, [], ◌++◌, Bytes, length,
  Option, none, some, ok, arith, ◌==◌, IsByte, text_eq_refl, pos,
}
use enisa_sbd_example.Common.Bits.{bit_and-0x03}
use enisa_sbd_example.Mqtt.Wire.{max_packet_size, publish_type}
use enisa_sbd_example.Mqtt.Packet.{read, write}
use enisa_sbd_example.Mqtt.Packet.RoundTrip.{read-write}
use enisa_sbd_example.Mqtt.Publish.{Publish, encode_publish}
use enisa_sbd_example.Mqtt.Publish.RoundTrip.{decode_publish-encode_publish, on_the_wire}
use enisa_sbd_example.Store.Model.{Time, Store}
use enisa_sbd_example.Store.Writes.{record_reading}
use enisa_sbd_example.Ingest.Conn.{Conn, first_answer, set_deadline, topic_for, max_metric_name_len}
use enisa_sbd_example.Ingest.Sample.{Sample, is_non_finite, reading_of, record_sample}
use enisa_sbd_example.Ingest.Sample.Accepted.{record_sample_iff}
use enisa_sbd_example.Ingest.Session.{acknowledge, on_publish, on_packet, next_round}

-- The next packet on the connection is a PUBLISH of QoS 0 or 1 to the device's own topic, whose payload
-- decodes to a sample with a metric name of 1 to 64 bytes and a finite value. The call that sets the
-- deadline succeeds.
pub record IsSending (decode : Bytes → Option Sample) (device_id : Bytes) (conn : Conn)
    (smp : Sample) : Type 0 where
  pub in_time : first_answer conn.deadlines ≡ none
  pub p : Publish
  pub packet : Bytes
  pub rest : Bytes
  pub arrived : conn.input.bytes ≡ packet ++ rest
  pub written : write publish_type (encode_publish p).0 (encode_publish p).1 ≡ ok packet
  pub fits : length (encode_publish p).1 ≤ max_packet_size
  pub qos_bound : p.qos ≤ 1
  pub id_bound : p.packet_id < 2 ^ 16
  pub own_topic : p.topic ≡ topic_for device_id
  pub topic_bound : length p.topic < 2 ^ 16
  pub decoded : decode p.payload ≡ some smp
  pub named : smp.metric ≢ []
  pub name_bound : length smp.metric ≤ max_metric_name_len
  pub finite : is_non_finite smp.value ≡ false

flags-encode_publish : (p : Publish) → IsByte (encode_publish p).0
unfolding encode_publish
flags-encode_publish p = ground (arith, bit_and-0x03 p.qos)

flags_low : (p : Publish) → p.qos ≤ 1 → (encode_publish p).0 % 16 ≡ (encode_publish p).0
unfolding encode_publish
flags_low p h = omega (arith, bit_and-0x03 p.qos)

acknowledge-store : (s : Store) (c : Conn) (p : Publish) → (acknowledge s c p).1 ≡ s
unfolding acknowledge
acknowledge-store s c p = elim (Bool-cases (p.qos == 1)) [
  | inl asked ↦ rw asked refl
  | inr silent ↦ rw silent refl
]

module _ (decode : Bytes → Option Sample) (device_id : Bytes) where
  read-sent :
      (conn : Conn) (smp : Sample) (h : IsSending decode device_id conn smp)
      → read conn.input (pos max_packet_size)
        ≡ ok (
          record {
            type = publish_type;
            flags = (encode_publish h.p).0;
            body = (encode_publish h.p).1;
          },
          record { bytes = h.rest; ending = conn.input.ending },
        )
  read-sent conn smp h =
      ap (λ b. read (record { bytes = b; ending = conn.input.ending }) (pos max_packet_size))
        h.arrived
      ∙ read-write publish_type (encode_publish h.p).0 (encode_publish h.p).1 h.packet h.rest
          conn.input.ending (pos max_packet_size) (omega arith) (flags-encode_publish h.p)
          (ground (arith, h.fits)) h.written
      ∙ ap
          (λ f. ok (
            record { type = publish_type; flags = f; body = (encode_publish h.p).1 },
            record { bytes = h.rest; ending = conn.input.ending },
          ))
          (flags_low h.p h.qos_bound)

  -- The round reads the PUBLISH and leaves the store as `RecordReading` does, whether or not the
  -- acknowledgement can be written.
  pub next_round-record :
      (now : Time) (s : Store) (conn : Conn) (smp : Sample) (t : Store)
      → IsSending decode device_id conn smp
      → record_reading s now device_id (reading_of smp) ≡ ok t
      → (next_round decode device_id now s conn).1 ≡ t
  unfolding next_round set_deadline on_packet on_publish
  next_round-record now s conn smp t h recorded =
      let stored : record_sample decode s now device_id h.p.payload ≡ ok t =
        (record_sample_iff decode s t now device_id h.p.payload).1 (record {
          smp = smp;
          decoded = h.decoded;
          named = h.named;
          name_bound = h.name_bound;
          finite = h.finite;
          recorded = recorded;
        }) in
      rw
        (
          next_round,
          set_deadline,
          h.in_time,
          read-sent conn smp h,
          on_packet,
          decode_publish-encode_publish h.p h.qos_bound h.topic_bound h.id_bound,
          on_publish,
          h.own_topic,
          text_eq_refl,
          stored,
        )
        (acknowledge-store t _ (on_the_wire h.p))

-- ===== src/Rollout/Concurrent/Serial.antt =====
-- internal/rollout/server.go: requests of which each is answered before the next one comes in are
-- handled as `create` handles them one after the other.
use enisa_sbd_example.Common.{
  ℕ, zero, suc, ◌≡◌, refl, sym, ap, ◌∙◌, Bool, List, [], ◌∷◌, ◌++◌, append_assoc, append-nil,
  length, length-append, Option, Bytes, arith,
}
use enisa_sbd_example.Store.Model.{Time}
use enisa_sbd_example.Rollout.Manifest.{Manifest}
use enisa_sbd_example.Rollout.Server.{World, create, max_manifest_bytes}
use enisa_sbd_example.Rollout.History.{Post, create_all}
use enisa_sbd_example.Rollout.Concurrent.{
  Phase, arrived, answered, advance, advance_nth, Turn, arrives, goes_on, turn, turns,
}
use enisa_sbd_example.Rollout.Concurrent.Alone.{times, create-turns}

module _ (base64_decode : Bytes → Option Bytes) (ed25519_verify : Bytes → Bytes → Bytes → Bool)
    (decode : ℕ → Bytes → Manifest × Bool) (key : Bytes) where
  advance_nth-last :
      (now : Time) (takes : Bool) (w : World) (ps : List Phase) (p : Phase)
      → advance_nth base64_decode ed25519_verify decode key now takes w (ps ++ p ∷ []) (length ps)
        ≡ (
          (advance base64_decode ed25519_verify decode key now takes w p).0,
          ps ++ (advance base64_decode ed25519_verify decode key now takes w p).1 ∷ [],
        )
  unfolding advance_nth
  advance_nth-last now takes w [] p = refl
  advance_nth-last now takes w (q ∷ ps) p =
      ap (λ (x : World × List Phase). (x.0, q ∷ x.1)) (advance_nth-last now takes w ps p)

  -- The request that came in last goes on as it would alone.
  times-last :
      (n : ℕ) (now : Time) (takes : Bool) (w : World) (ps : List Phase) (p : Phase)
      → let alone =
          turns base64_decode ed25519_verify decode key
            (w, p ∷ [])
            (times n (goes_on now takes 0)) in
        turns base64_decode ed25519_verify decode key
          (w, ps ++ p ∷ [])
          (times n (goes_on now takes (length ps)))
        ≡ (alone.0, ps ++ alone.1)
  unfolding turns turn advance_nth
  times-last zero now takes w ps p = refl
  times-last (suc n) now takes w ps p =
      let (w', p') = advance base64_decode ed25519_verify decode key now takes w p in
      ap
        (λ sys.
          turns base64_decode ed25519_verify decode key sys
            (times n (goes_on now takes (length ps))))
        (advance_nth-last now takes w ps p)
      ∙ times-last n now takes w' ps p'

  turns-append :
      (sys : World × List Phase) (ts us : List Turn)
      → turns base64_decode ed25519_verify decode key sys (ts ++ us)
        ≡ turns base64_decode ed25519_verify decode key
            (turns base64_decode ed25519_verify decode key sys ts)
            us
  unfolding turns
  turns-append sys [] us = refl
  turns-append sys (t ∷ ts) us =
      turns-append (turn base64_decode ed25519_verify decode key sys t) ts us

  module _ (accepts : Manifest → Bool) where
    -- Each request comes in after those before it were answered, and takes its steps; `n` have been
    -- answered before.
    abbrev pub serial : ℕ → List Post → List Turn
    serial n [] = []
    serial n (p ∷ ps) =
        arrives p.ctx p.request
        ∷ (times 4 (goes_on p.now (accepts (decode max_manifest_bytes p.request.body).0) n)
            ++ serial (suc n) ps)

    -- The answers of `create` to one request after the other.
    abbrev pub all_answered : World → List Post → List Phase
    all_answered w [] = []
    all_answered w (p ∷ ps) =
        let (res, w') =
          create base64_decode ed25519_verify decode accepts key p.now p.ctx p.request w in
        answered res ∷ all_answered w' ps

    turns-serial_from :
        (w : World) (before : List Phase) (posts : List Post)
        → turns base64_decode ed25519_verify decode key (w, before) (serial (length before) posts)
          ≡ (
            create_all base64_decode ed25519_verify decode accepts key w posts,
            before ++ all_answered w posts,
          )
    unfolding turns turn create_all
    turns-serial_from w before [] = ap (λ l. (w, l)) (sym (append-nil before))
    turns-serial_from w before (p ∷ ps) =
        let takes = accepts (decode max_manifest_bytes p.request.body).0 in
        let steps = times 4 (goes_on p.now takes (length before)) in
        let (res, w') =
          create base64_decode ed25519_verify decode accepts key p.now p.ctx p.request w in
        let next = before ++ answered res ∷ [] in
        let one_more : suc (length before) ≡ length next =
          omega (arith, length-append before (answered res ∷ [])) in
        turns-append (w, before ++ arrived p.ctx p.request ∷ []) steps
          (serial (suc (length before)) ps)
        ∙ ap
            (λ sys.
              turns base64_decode ed25519_verify decode key sys (serial (suc (length before)) ps))
            (times-last 4 p.now takes w before (arrived p.ctx p.request)
              ∙ ap (λ (x : World × List Phase). (x.0, before ++ x.1))
                  (create-turns base64_decode ed25519_verify decode accepts key p.now p.ctx
                    p.request w []))
        ∙ ap (λ n. turns base64_decode ed25519_verify decode key (w', next) (serial n ps)) one_more
        ∙ turns-serial_from w' next ps
        ∙ ap (λ l. (create_all base64_decode ed25519_verify decode accepts key w' ps, l))
            (append_assoc before (answered res ∷ []) (all_answered w' ps))

    -- Requests of which each is answered before the next one comes in, in four steps each and with the
    -- publisher's answer to its manifest, leave the world and are answered as `create` has it for one
    -- after the other.
    pub turns-serial :
        (w : World) (posts : List Post)
        → turns base64_decode ed25519_verify decode key (w, []) (serial 0 posts) ≡ (
          create_all base64_decode ed25519_verify decode accepts key w posts,
          all_answered w posts,
        )
    turns-serial w posts = turns-serial_from w [] posts

-- ===== src/Rollout/Concurrent/Sound.antt =====
-- internal/rollout/server.go: what no order of the requests' steps can break.
use enisa_sbd_example.Common.{
  ℕ, zero, suc, ◌≡◌, sym, ap, subst, Bool, List, [], ◌∷◌, ◌++◌, append-nil, Option, Bytes, All,
  All-append, All-imp,
}
use enisa_sbd_example.Store.Model.{Time, AuditEntry}
use enisa_sbd_example.Rollout.Manifest.{Manifest}
use enisa_sbd_example.Rollout.Server.{World}
use enisa_sbd_example.Rollout.Concurrent.{
  Phase, arrived, advance_nth, Turn, arrives, goes_on, turn, turns,
}
use enisa_sbd_example.Rollout.Concurrent.Grown.{
  HasGrown, IsSoundPhase, IsSoundPhase-more, advance-Outcome,
}

module _ (base64_decode : Bytes → Option Bytes) (ed25519_verify : Bytes → Bytes → Bytes → Bool)
    (decode : ℕ → Bytes → Manifest × Bool) (key : Bytes) where
  record Outcomes (w₀ w : World) (before : HasGrown base64_decode ed25519_verify decode key w₀ w)
      (sys : World × List Phase) : Type 0 where
    grown : HasGrown base64_decode ed25519_verify decode key w₀ sys.0
    more : List Manifest
    extended : grown.releases ≡ before.releases ++ more
    sound : All (IsSoundPhase base64_decode ed25519_verify decode key grown.releases) sys.1

  still_sound :
      (releases after more : List Manifest) (ps : List Phase)
      → after ≡ releases ++ more
      → All (IsSoundPhase base64_decode ed25519_verify decode key releases) ps
      → All (IsSoundPhase base64_decode ed25519_verify decode key after) ps
  still_sound releases after more ps e h =
      subst (λ l. All (IsSoundPhase base64_decode ed25519_verify decode key l) ps) (sym e)
        (All-imp (IsSoundPhase base64_decode ed25519_verify decode key releases)
          (IsSoundPhase base64_decode ed25519_verify decode key (releases ++ more))
          (IsSoundPhase-more base64_decode ed25519_verify decode key releases more) ps h)

  advance_nth-Outcomes :
      (w₀ w : World) (g : HasGrown base64_decode ed25519_verify decode key w₀ w) (now : Time)
      (takes : Bool) (ps : List Phase) (i : ℕ)
      → All (IsSoundPhase base64_decode ed25519_verify decode key g.releases) ps
      → Outcomes w₀ w g (advance_nth base64_decode ed25519_verify decode key now takes w ps i)
  unfolding advance_nth
  advance_nth-Outcomes w₀ w g now takes [] i h = record {
    grown = g;
    more = [];
    extended = sym (append-nil g.releases);
    sound = tt;
  }
  advance_nth-Outcomes w₀ w g now takes (p ∷ ps) zero (h, hs) =
      let o = advance-Outcome base64_decode ed25519_verify decode key w₀ w g now takes p h in
      record {
        grown = o.grown;
        more = o.more;
        extended = o.extended;
        sound = (o.sound, still_sound g.releases o.grown.releases o.more ps o.extended hs);
      }
  advance_nth-Outcomes w₀ w g now takes (p ∷ ps) (suc i) (h, hs) =
      let o = advance_nth-Outcomes w₀ w g now takes ps i hs in
      record {
        grown = o.grown;
        more = o.more;
        extended = o.extended;
        sound = (
          (still_sound g.releases o.grown.releases o.more (p ∷ []) o.extended (h, tt)).0,
          o.sound,
        );
      }

  turns-HasGrown_from :
      (w₀ w : World) (g : HasGrown base64_decode ed25519_verify decode key w₀ w) (ps : List Phase)
      (ts : List Turn)
      → All (IsSoundPhase base64_decode ed25519_verify decode key g.releases) ps
      → HasGrown base64_decode ed25519_verify decode key w₀
          (turns base64_decode ed25519_verify decode key (w, ps) ts).0
  unfolding turns turn
  turns-HasGrown_from w₀ w g ps [] h = g
  turns-HasGrown_from w₀ w g ps (arrives ctx r ∷ ts) h =
      turns-HasGrown_from w₀ w g (ps ++ arrived ctx r ∷ []) ts (
        All-append (IsSoundPhase base64_decode ed25519_verify decode key g.releases) ps
          (arrived ctx r ∷ []) h (tt, tt))
  turns-HasGrown_from w₀ w g ps (goes_on now takes i ∷ ts) h =
      let o = advance_nth-Outcomes w₀ w g now takes ps i h in
      let sys = advance_nth base64_decode ed25519_verify decode key now takes w ps i in
      turns-HasGrown_from w₀ sys.0 o.grown sys.1 ts o.sound

  -- Whatever requests come in and in whatever order their steps are taken: the devices, the readings
  -- and the entries of the log that were there stay as they were, every entry that is added is a
  -- rejection or the acceptance of a version that was handed to the publisher, and every manifest
  -- that is handed over verifies against the key.
  pub turns-HasGrown :
      (w : World) (ts : List Turn)
      → HasGrown base64_decode ed25519_verify decode key w
          (turns base64_decode ed25519_verify decode key (w, []) ts).0
  turns-HasGrown w ts = turns-HasGrown_from w w nothing_yet [] ts tt
    where
      nothing_yet : HasGrown base64_decode ed25519_verify decode key w w
      nothing_yet = record {
        entries = [];
        releases = [];
        log =
            ap (λ (a : List AuditEntry). record w.store { audit = a })
              (sym (append-nil w.store.audit));
        sent = sym (append-nil w.sent);
        backed = tt;
        verified_all = tt;
      }

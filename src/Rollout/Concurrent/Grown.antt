-- ===== src/Rollout/Concurrent/Grown.antt =====
-- internal/rollout/server.go: what one step of a request leaves of the world and of the request.
use mathlib.Core.List.{Memᴰ}
use enisa_sbd_example.Common.{
  ℕ, ◌≡◌, ◌≢◌, ◌⊎◌, inl, inr, refl, sym, ap, subst, ◌∙◌, Bool, true, false, List, [], ◌∷◌, ◌++◌,
  append_assoc, append-nil, Option, Bytes, codes, All, All-append, All-imp, Memᴰ-front, Memᴰ-last,
  ok,
}
use enisa_sbd_example.Authn.Identity.{Identity}
use enisa_sbd_example.Store.Model.{
  Time, AuditEntry, Store, action_rollout_accepted, action_rollout_rejected,
}
use enisa_sbd_example.Store.Scope.{Scope, org_scope}
use enisa_sbd_example.Store.Writes.{stamp_entry, append_audit}
use enisa_sbd_example.Http.{Request, Response}
use enisa_sbd_example.Rollout.Manifest.{Manifest, verify}
use enisa_sbd_example.Rollout.Server.{
  World, attempt_entry, reject, Verdict, history_failed, not_newer, cleared, check_history,
}
use enisa_sbd_example.Rollout.Server.Logged.{identify-known, append_audit-org_scope}
use enisa_sbd_example.Rollout.Concurrent.{
  Phase, arrived, refusing, verified, checked, published, answered, after_check, after_append,
  accepted_response, advance,
}
use enisa_sbd_example.Rollout.Concurrent.Received.{
  Received, anonymous, turned_down, passed, receive-Received,
}

-- A rejection, or the acceptance of a version that one of the manifests has.
abbrev pub IsBacked : List Manifest → AuditEntry → Type 0
IsBacked releases e =
    (e.action ≡ action_rollout_rejected)
    ⊎ ((e.action ≡ action_rollout_accepted)
        × (m : Manifest) × Memᴰ m releases
        × (e.target ≡ m.version))

-- The scope is the caller's, who has an organisation.
abbrev HasScope : Identity → Scope → Type 0
HasScope id scope = (id.org_id ≢ []) × (scope ≡ org_scope id.org_id)

module _ (base64_decode : Bytes → Option Bytes) (ed25519_verify : Bytes → Bytes → Bytes → Bool)
    (decode : ℕ → Bytes → Manifest × Bool) (key : Bytes) where
  abbrev pub IsReleased : Manifest → Type 0
  IsReleased m = verify base64_decode ed25519_verify m key ≡ ok tt

  -- The world has grown by entries of the log, each backed, and by manifests that were handed to the
  -- publisher, each verified; nothing that was there before has changed.
  pub record HasGrown (w₀ w : World) : Type 0 where
    pub entries : List AuditEntry
    pub releases : List Manifest
    pub log : w.store ≡ record w₀.store { audit = w₀.store.audit ++ entries }
    pub sent : w.sent ≡ w₀.sent ++ releases
    pub backed : All (IsBacked releases) entries
    pub verified_all : All IsReleased releases

  abbrev pub IsSoundPhase : List Manifest → Phase → Type 0
  IsSoundPhase releases (arrived ctx r) = Unit
  IsSoundPhase releases (refusing id scope version status reason) = HasScope id scope
  IsSoundPhase releases (verified id scope m) = HasScope id scope × IsReleased m
  IsSoundPhase releases (checked id scope m) = HasScope id scope × IsReleased m
  IsSoundPhase releases (published id scope m) = HasScope id scope × IsReleased m × Memᴰ m releases
  IsSoundPhase releases (answered res) = Unit

  pub IsSoundPhase-more :
      (releases more : List Manifest) (p : Phase)
      → IsSoundPhase releases p
      → IsSoundPhase (releases ++ more) p
  IsSoundPhase-more releases more (arrived ctx r) h = tt
  IsSoundPhase-more releases more (refusing id scope version status reason) h = h
  IsSoundPhase-more releases more (verified id scope m) h = h
  IsSoundPhase-more releases more (checked id scope m) h = h
  IsSoundPhase-more releases more (published id scope m) (s, v, mem) =
      (s, v, Memᴰ-front m releases more mem)
  IsSoundPhase-more releases more (answered res) h = tt

  IsBacked-more :
      (releases more : List Manifest) (e : AuditEntry)
      → IsBacked releases e
      → IsBacked (releases ++ more) e
  IsBacked-more releases more e (inl rejected) = inl rejected
  IsBacked-more releases more e (inr (accepted, m, mem, same)) =
      inr (accepted, m, Memᴰ-front m releases more mem, same)

  -- The world after a step of one request, and that request's phase.
  pub record Outcome (w₀ w : World) (before : HasGrown w₀ w) (out : World × Phase) : Type 0 where
    pub grown : HasGrown w₀ out.0
    pub more : List Manifest
    pub extended : grown.releases ≡ before.releases ++ more
    pub sound : IsSoundPhase grown.releases out.1

  unchanged :
      (w₀ w : World) (g : HasGrown w₀ w) (p : Phase)
      → IsSoundPhase g.releases p
      → Outcome w₀ w g (w, p)
  unchanged w₀ w g p h = record {
    grown = g;
    more = [];
    extended = sym (append-nil g.releases);
    sound = h;
  }

  -- One more entry of the log.
  logged :
      (w₀ w : World) (g : HasGrown w₀ w) (e : AuditEntry)
      → IsBacked g.releases e
      → HasGrown w₀ (record w { store = record w.store { audit = w.store.audit ++ e ∷ [] } })
  logged w₀ w g e b = record {
    entries = g.entries ++ e ∷ [];
    releases = g.releases;
    log =
        ap (λ (s : Store). record s { audit = s.audit ++ e ∷ [] }) g.log
        ∙ ap (λ (a : List AuditEntry). record w₀.store { audit = a })
            (append_assoc w₀.store.audit g.entries (e ∷ []));
    sent = g.sent;
    backed = All-append (IsBacked g.releases) g.entries (e ∷ []) g.backed (b, tt);
    verified_all = g.verified_all;
  }

  logs :
      (w₀ w w' : World) (g : HasGrown w₀ w) (e : AuditEntry) (p : Phase)
      → IsBacked g.releases e
      → w' ≡ record w { store = record w.store { audit = w.store.audit ++ e ∷ [] } }
      → IsSoundPhase g.releases p
      → Outcome w₀ w g (w', p)
  unfolding logged
  logs w₀ w w' g e p b same h =
      subst (λ (v : World). Outcome w₀ w g (v, p)) (sym same)
        (record {
          grown = logged w₀ w g e b;
          more = [];
          extended = sym (append-nil g.releases);
          sound = h;
        })

  -- The log after an entry of the caller.
  abbrev with_entry : World → Time → Identity → AuditEntry → World
  with_entry w now id e = record w {
    store = record w.store { audit = w.store.audit ++ stamp_entry id.org_id now e ∷ [] };
  }

  reject-with_entry :
      (w : World) (now : Time) (id : Identity) (scope : Scope) (version : Bytes) (status : ℕ)
      (reason : Bytes)
      → HasScope id scope
      → (reject w now id scope version status reason).1
        ≡ with_entry w now id
            (attempt_entry id action_rollout_rejected version (codes "denied") reason)
  unfolding reject
  reject-with_entry w now id scope version status reason (org, same) =
      rw
        (
          same,
          append_audit-org_scope w.store now id.org_id
              (attempt_entry id action_rollout_rejected version (codes "denied") reason) org,
        )
        refl

  append-with_entry :
      (w : World) (now : Time) (id : Identity) (scope : Scope) (m : Manifest) (e : AuditEntry)
      → HasScope id scope
      → (res : Response) × (after_append w m (append_audit w.store now scope e)
          ≡ (with_entry w now id e, answered res))
  append-with_entry w now id scope m e (org, same) =
      (accepted_response m, rw (same, append_audit-org_scope w.store now id.org_id e org) refl)

  after_check_sound :
      (releases : List Manifest) (id : Identity) (scope : Scope) (m : Manifest) (w : World)
      (v : Verdict)
      → HasScope id scope
      → IsReleased m
      → IsSoundPhase releases (after_check id scope m w v)
  after_check_sound releases id scope m w history_failed h v = tt
  after_check_sound releases id scope m w not_newer h v = h
  after_check_sound releases id scope m w cleared h v = (h, v)

  Received-sound :
      (releases : List Manifest) (ctx : Option Identity) (r : Request) (p : Phase)
      → Received base64_decode ed25519_verify decode key ctx r p
      → IsSoundPhase releases p
  Received-sound releases ctx r p (anonymous res e) = rw e tt
  Received-sound releases ctx r p (turned_down id scope version status reason k e) =
      let (_, org, same) = identify-known ctx id scope k in rw e (org, same)
  Received-sound releases ctx r p (passed id scope m k d v e) =
      let (_, org, same) = identify-known ctx id scope k in rw e ((org, same), v)

  -- The world after a manifest was handed over.
  published-Outcome :
      (w₀ w : World) (g : HasGrown w₀ w) (m : Manifest) (p : Phase)
      → IsReleased m
      → IsSoundPhase (g.releases ++ m ∷ []) p
      → Outcome w₀ w g (record w { sent = w.sent ++ m ∷ [] }, p)
  published-Outcome w₀ w g m p v h = record {
    grown = record {
      entries = g.entries;
      releases = g.releases ++ m ∷ [];
      log = g.log;
      sent = ap (λ l. l ++ m ∷ []) g.sent ∙ append_assoc w₀.sent g.releases (m ∷ []);
      backed =
          All-imp (IsBacked g.releases) (IsBacked (g.releases ++ m ∷ []))
            (IsBacked-more g.releases (m ∷ [])) g.entries g.backed;
      verified_all = All-append IsReleased g.releases (m ∷ []) g.verified_all (v, tt);
    };
    more = m ∷ [];
    extended = refl;
    sound = h;
  }

  pub advance-Outcome :
      (w₀ w : World) (g : HasGrown w₀ w) (now : Time) (takes : Bool) (p : Phase)
      → IsSoundPhase g.releases p
      → Outcome w₀ w g (advance base64_decode ed25519_verify decode key now takes w p)
  unfolding advance
  advance-Outcome w₀ w g now takes (arrived ctx r) h = unchanged w₀ w g _ (
      Received-sound g.releases ctx r _
        (receive-Received base64_decode ed25519_verify decode key ctx r))
  advance-Outcome w₀ w g now takes (refusing id scope version status reason) h =
      logs w₀ w (reject w now id scope version status reason).1 g
        (stamp_entry id.org_id now
          (attempt_entry id action_rollout_rejected version (codes "denied") reason))
        (answered (reject w now id scope version status reason).0) (inl refl)
        (reject-with_entry w now id scope version status reason h) tt
  advance-Outcome w₀ w g now takes (verified id scope m) (h, v) =
      unchanged w₀ w g _
        (after_check_sound g.releases id scope m w (check_history w.store scope m) h v)
  advance-Outcome w₀ w g now true (checked id scope m) (h, v) =
      published-Outcome w₀ w g m (published id scope m) v (h, v, Memᴰ-last m g.releases)
  advance-Outcome w₀ w g now false (checked id scope m) (h, v) = published-Outcome w₀ w g m _ v h
  advance-Outcome w₀ w g now takes (published id scope m) (h, v, mem) =
      let e = attempt_entry id action_rollout_accepted m.version (codes "allowed") [] in
      let (res, same) = append-with_entry w now id scope m e h in
      subst (Outcome w₀ w g) (sym same) (
        logs w₀ w (with_entry w now id e) g (stamp_entry id.org_id now e) (answered res)
          (inr (refl, m, mem, refl)) refl tt)
  advance-Outcome w₀ w g now takes (answered res) h = unchanged w₀ w g (answered res) tt

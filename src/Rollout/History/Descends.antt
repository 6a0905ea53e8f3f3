-- ===== src/Rollout/History/Descends.antt =====
-- internal/rollout/server.go: the versions that an organisation accepted only ever rise.
use mathlib.Core.List.{reverse, reverse-append}
use enisa_sbd_example.Common.{
  ℕ, ◌≡◌, ◌≢◌, ◌⊎◌, inl, inr, refl, sym, ap, subst, ◌∙◌, Bool, false, Bool-cases, List, [], ◌∷◌,
  ◌++◌, Option, Bytes, text_eq, text_eq_iff, has_prefix, keep, if◌then◌else◌, ok, arith,
}
use enisa_sbd_example.Store.Model.{
  Time, AuditEntry, Store, action_rollout_accepted, action_rollout_rejected,
}
use enisa_sbd_example.Store.Scope.{org_scope, org_of}
use enisa_sbd_example.Store.Writes.{stamp_entry}
use enisa_sbd_example.Store.Reads.Order.{is_shown, audit-eq}
use enisa_sbd_example.Rollout.Manifest.{Manifest}
use enisa_sbd_example.Rollout.Version.{parse_version}
use enisa_sbd_example.Rollout.Server.{World, first_target, current_version, create}
use enisa_sbd_example.Rollout.Server.Sent.{IsBelow, IsNewer}
use enisa_sbd_example.Rollout.History.{Post, create_all}
use enisa_sbd_example.Rollout.History.Entries.{Logs, nothing, rejection, acceptance, create-Logs}

abbrev pub targets : List AuditEntry → List Bytes
targets [] = []
targets (e ∷ es) = e.target ∷ targets es

-- The versions that the organisation accepted, the newest first.
abbrev pub accepted_versions : Bytes → Store → List Bytes
accepted_versions org s = targets (keep (is_shown org action_rollout_accepted) (reverse s.audit))

abbrev pub IsAbove : Bytes → List Bytes → Type 0
IsAbove v [] = Unit
IsAbove v (u ∷ _) = IsBelow u v

-- Each version is higher than the one before it.
abbrev pub IsDescending : List Bytes → Type 0
IsDescending [] = Unit
IsDescending (v ∷ vs) = (v ≢ []) × IsAbove v vs × IsDescending vs

pub targets-keep-append :
    (org : Bytes) (s : Store) (x : AuditEntry)
    → accepted_versions org (record s { audit = s.audit ++ x ∷ [] }) ≡ (
        if is_shown org action_rollout_accepted x
        then x.target ∷ accepted_versions org s
        else accepted_versions org s)
targets-keep-append org s x =
    rw (reverse-append s.audit (x ∷ []))
      (elim (Bool-cases (is_shown org action_rollout_accepted x)) [
        | inl shown ↦ rw shown
        | inr hidden ↦ rw hidden
      ])

abbrev pub head_or_nil : List Bytes → Bytes
head_or_nil [] = []
head_or_nil (v ∷ _) = v

first_target-targets : (es : List AuditEntry) → first_target es ≡ head_or_nil (targets es)
first_target-targets [] = refl
first_target-targets (e ∷ es) = refl

pub current_version-head :
    (s : Store) (org : Bytes)
    → org ≢ []
    → current_version s (org_scope org) ≡ ok (head_or_nil (accepted_versions org s))
unfolding current_version
current_version-head s org h =
    rw (audit-eq s (org_scope org) org action_rollout_accepted (own org h))
      (ap ok (first_target-targets (keep (is_shown org action_rollout_accepted) (reverse s.audit))))
  where
    own : (org : Bytes) → org ≢ [] → org_of (org_scope org) ≡ ok org
    own org h = unfold org_of in ground arith

IsDescending-cons :
    (v : Bytes) (vs : List Bytes)
    → v ≢ []
    → (head_or_nil vs ≡ []) ⊎ IsBelow (head_or_nil vs) v
    → IsDescending vs
    → IsDescending (v ∷ vs)
IsDescending-cons v [] h newer d = (h, tt, tt)
IsDescending-cons v (u ∷ vs) h (inl none_yet) d = absurd (d.0 none_yet)
IsDescending-cons v (u ∷ vs) h (inr below) d = (h, below, d)

parse_version-ne-nil : (v : Bytes) (parts : List ℕ) → parse_version v ≡ ok parts → v ≢ []
unfolding parse_version
parse_version-ne-nil [] parts e = λ same. cc
parse_version-ne-nil (c ∷ v) parts e = λ same. cc

abbrev pub DescendsIn : Store → Type 0
DescendsIn s = (org : Bytes) → IsDescending (accepted_versions org s)

rejection-hidden :
    (org o : Bytes) (now : Time) (e : AuditEntry)
    → e.action ≡ action_rollout_rejected
    → is_shown org action_rollout_accepted (stamp_entry o now e) ≡ false
unfolding has_prefix
rejection-hidden org o now e action = elim (Bool-cases (text_eq o org)) [
  | inl same ↦ rw (same, action)
  | inr other ↦ rw other
]

pub acceptance-shown :
    (org o : Bytes) (now : Time) (e : AuditEntry)
    → e.action ≡ action_rollout_accepted
    → is_shown org action_rollout_accepted (stamp_entry o now e) ≡ text_eq o org
unfolding has_prefix
acceptance-shown org o now e action = elim (Bool-cases (text_eq o org)) [
  | inl same ↦ rw (same, action)
  | inr other ↦ rw other
]

accepted-IsDescending :
    (s : Store) (org : Bytes) (e : AuditEntry) (parts : List ℕ)
    → org ≢ []
    → parse_version e.target ≡ ok parts
    → IsNewer s (org_scope org) e.target
    → IsDescending (accepted_versions org s)
    → IsDescending (e.target ∷ accepted_versions org s)
accepted-IsDescending s org e parts has_org parses newer d =
    let last = head_or_nil (accepted_versions org s) in
    let found : ok newer.current ≡ ok last =
      sym newer.is_current ∙ current_version-head s org has_org in
    let same : newer.current ≡ last = cc in
    IsDescending-cons e.target (accepted_versions org s)
      (parse_version-ne-nil e.target parts parses)
      (subst (λ v. (v ≡ []) ⊎ IsBelow v e.target) same newer.newer) d

Logs-DescendsIn : (s t : Store) → Logs s t → DescendsIn s → DescendsIn t
Logs-DescendsIn s t (nothing same) d org = rw same (d org)
Logs-DescendsIn s t (rejection o now e action same) d org =
    rw (same, targets-keep-append org s (stamp_entry o now e), rejection-hidden org o now e action)
      (d org)
Logs-DescendsIn s t (acceptance o now e parts has_org action parses newer same) d org =
    rw (same, targets-keep-append org s (stamp_entry o now e), acceptance-shown org o now e action)
      (elim (Bool-cases (text_eq o org)) [
        | inr other ↦ rw other (d org)
        | inl own ↦
            let eq : o ≡ org = (text_eq_iff o org).0 own in
            rw own (
              accepted-IsDescending s org e parts (subst (λ (x : Bytes). x ≢ []) eq has_org) parses
                (subst (λ x. IsNewer s (org_scope x) e.target) eq newer) (d org))
      ])

module _ (base64_decode : Bytes → Option Bytes) (ed25519_verify : Bytes → Bytes → Bytes → Bool)
    (decode : ℕ → Bytes → Manifest × Bool) (accepts : Manifest → Bool) where
  -- No downgrade: over any requests that are handled one after the other, the versions that an
  -- organisation accepted only ever rise.
  pub create_all-DescendsIn :
      (key : Bytes) (w : World) (ps : List Post)
      → DescendsIn w.store
      → DescendsIn (create_all base64_decode ed25519_verify decode accepts key w ps).store
  unfolding create_all
  create_all-DescendsIn key w [] d = d
  create_all-DescendsIn key w (p ∷ ps) d =
      let w' = (create base64_decode ed25519_verify decode accepts key p.now p.ctx p.request w).1 in
      create_all-DescendsIn key w' ps (
        Logs-DescendsIn w.store w'.store
          (create-Logs base64_decode ed25519_verify decode accepts key p.now p.ctx p.request w) d)

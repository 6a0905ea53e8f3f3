-- ===== src/Ingest/Serve/Isolated.antt =====
-- internal/ingest and internal/store: connections that are served at once, and other organisations.
use enisa_sbd_example.Common.{
  ℕ, zero, suc, ◌≡◌, inl, inr, not, ◌||◌, Bool-cases, List, [], ◌∷◌, Option, none, some,
  Option-cases, Bytes, All, All-append, length, ltb, ℤ, lookup, Result-cases, ok,
}
use enisa_sbd_example.Store.Model.{Time, Store}
use enisa_sbd_example.Store.Scope.{org_scope}
use enisa_sbd_example.Store.Reads.{device}
use enisa_sbd_example.Store.Isolation.{SameView, IsOther}
use enisa_sbd_example.Store.Isolation.Steps.{SameView-trans}
use enisa_sbd_example.Ingest.Conn.{SessionError, Conn, device_id_from}
use enisa_sbd_example.Ingest.Sample.{Sample}
use enisa_sbd_example.Ingest.Session.{open_session, next_round}
use enisa_sbd_example.Ingest.Session.Paths.{next_round-RoundPath}
use enisa_sbd_example.Ingest.Session.Trace.{idle}
use enisa_sbd_example.Ingest.Session.Served.{continues, finishes, RoundPath-Outcome}
use enisa_sbd_example.Ingest.Handle.{Incoming}
use enisa_sbd_example.Ingest.Handle.Isolated.{
  SameView-refl, Served-IsOther, Served-SameView, Finished-IsOther, Finished-SameView,
}
use enisa_sbd_example.Ingest.Serve.{
  Live, waiting, looping, System, capacity, opened, greet, keep_live, after_round, Event, arrives,
  accept_fails, cancels, runs, step_live, run_nth, step, run, is_stopped,
}

-- The certificate names no device of the organisation.
abbrev pub HasForeignName : Bytes → Store → Incoming → Type 0
HasForeignName org s inc =
    (id : Bytes) → device_id_from inc.common_names ≡ ok id → IsOther org (lookup id s.devices)

-- The connection is not that of a device of the organisation.
abbrev pub IsForeignLive : Bytes → Store → Live → Type 0
IsForeignLive org s (waiting inc) = HasForeignName org s inc
IsForeignLive org s (looping id c) = IsOther org (lookup id s.devices)

abbrev pub IsForeignEvent : Bytes → Store → Event → Type 0
IsForeignEvent org s (arrives inc) = HasForeignName org s inc
IsForeignEvent org s (accept_fails e) = Unit
IsForeignEvent org s cancels = Unit
IsForeignEvent org s (runs now i) = Unit

-- No device comes to the organisation.
abbrev KeepsOther : Bytes → Store → Store → Type 0
KeepsOther org s t =
    (k : Bytes) → IsOther org (lookup k s.devices) → IsOther org (lookup k t.devices)

module _ (decode : Bytes → Option Sample) (org : Bytes) where
  IsForeignLive-kept :
      (s t : Store) (l : Live) → KeepsOther org s t → IsForeignLive org s l → IsForeignLive org t l
  IsForeignLive-kept s t (waiting inc) keeps f = λ id named. keeps id (f id named)
  IsForeignLive-kept s t (looping id c) keeps f = keeps id f

  All-kept :
      (s t : Store) (ls : List Live)
      → KeepsOther org s t
      → All (IsForeignLive org s) ls
      → All (IsForeignLive org t) ls
  All-kept s t [] keeps _ = tt
  All-kept s t (l ∷ ls) keeps (f, fs) = (IsForeignLive-kept s t l keeps f, All-kept s t ls keeps fs)

  IsForeignEvent-kept :
      (s t : Store) (es : List Event)
      → KeepsOther org s t
      → All (IsForeignEvent org s) es
      → All (IsForeignEvent org t) es
  IsForeignEvent-kept s t [] keeps _ = tt
  IsForeignEvent-kept s t (arrives inc ∷ es) keeps (f, fs) =
      ((λ id named. keeps id (f id named)), IsForeignEvent-kept s t es keeps fs)
  IsForeignEvent-kept s t (accept_fails e ∷ es) keeps (f, fs) =
      (tt, IsForeignEvent-kept s t es keeps fs)
  IsForeignEvent-kept s t (cancels ∷ es) keeps (f, fs) = (tt, IsForeignEvent-kept s t es keeps fs)
  IsForeignEvent-kept s t (runs now i ∷ es) keeps (f, fs) =
      (tt, IsForeignEvent-kept s t es keeps fs)

  -- What a step of one connection, or of the system, leaves.
  record Leaves (s : Store) (live : List Live) (t : Store) : Type 0 where
    same_view : SameView s t (org_scope org)
    keeps : KeepsOther org s t
    foreign : All (IsForeignLive org t) live

  unchanged : (s : Store) (live : List Live) → All (IsForeignLive org s) live → Leaves s live s
  unchanged s live fs = record {
    same_view = SameView-refl s (org_scope org);
    keeps = λ k other. other;
    foreign = fs;
  }

  opened-IsForeign :
      (s : Store) (id : Bytes) (o : Option SessionError × Conn)
      → IsOther org (lookup id s.devices)
      → All (IsForeignLive org s) (keep_live (opened id o) [])
  opened-IsForeign s id (none, c) other = (other, tt)
  opened-IsForeign s id (some e, c) other = tt

  greet-IsForeign :
      (s : Store) (inc : Incoming)
      → HasForeignName org s inc
      → All (IsForeignLive org s) (keep_live (greet s inc) [])
  unfolding greet
  greet-IsForeign s inc f = elim (Bool-cases inc.is_tls) [
    | inr plain ↦ rw (plain, greet) tt
    | inl is_tls ↦ elim (Option-cases inc.handshake) [
      | inr (e, refused) ↦ rw (is_tls, refused, greet) tt
      | inl shaken ↦ elim (Result-cases (device_id_from inc.common_names)) [
        | inr (e, bad) ↦ rw (is_tls, shaken, bad, greet) tt
        | inl (id, named) ↦ elim (Option-cases (device s id)) [
          | inl absent ↦ rw (is_tls, shaken, named, absent, greet) tt
          | inr (d, present) ↦
              rw (is_tls, shaken, named, present, greet)
                (opened-IsForeign s id (open_session inc.conn) (f id named))
        ]
      ]
    ]
  ]

  step_live-Leaves :
      (now : Time) (s : Store) (l : Live)
      → IsForeignLive org s l
      → Leaves s (keep_live (step_live decode now s l).1 []) (step_live decode now s l).0
  unfolding step_live
  step_live-Leaves now s (waiting inc) f = unchanged s _ (greet-IsForeign s inc f)
  step_live-Leaves now s (looping id c) f =
      let out = next_round decode id now s c in
      let path = next_round-RoundPath decode id now s c in
      elim (RoundPath-Outcome decode id s c.input c.written now s c out path idle) [
        | continues more served ↦
            rw (more, after_round)
              (record {
                same_view = Served-SameView decode id org served f;
                keeps = λ k other. Served-IsOther decode id org k served other;
                foreign = (Served-IsOther decode id org id served f, tt);
              })
        | finishes e last done ↦
            rw (last, after_round)
              (record {
                same_view = Finished-SameView decode id org done f;
                keeps = λ k other. Finished-IsOther decode id org k done other;
                foreign = tt;
              })
      ]

  All-keep_live :
      (t : Store) (l : Option Live) (ls : List Live)
      → All (IsForeignLive org t) (keep_live l [])
      → All (IsForeignLive org t) ls
      → All (IsForeignLive org t) (keep_live l ls)
  All-keep_live t none ls f fs = fs
  All-keep_live t (some l) ls f fs = (f.0, fs)

  run_nth-Leaves :
      (now : Time) (s : Store) (ls : List Live) (i : ℕ)
      → All (IsForeignLive org s) ls
      → Leaves s (run_nth decode now s ls i).1 (run_nth decode now s ls i).0
  unfolding run_nth
  run_nth-Leaves now s [] i fs = unchanged s _ tt
  run_nth-Leaves now s (l ∷ ls) zero (f, fs) =
      let one = step_live-Leaves now s l f in
      let (t, l') = step_live decode now s l in
      record {
        same_view = one.same_view;
        keeps = one.keeps;
        foreign = All-keep_live t l' ls one.foreign (All-kept s t ls one.keeps fs);
      }
  run_nth-Leaves now s (l ∷ ls) (suc i) (f, fs) =
      let rest = run_nth-Leaves now s ls i fs in
      record {
        same_view = rest.same_view;
        keeps = rest.keeps;
        foreign = (IsForeignLive-kept s (run_nth decode now s ls i).0 l rest.keeps f, rest.foreign);
      }

  step-Leaves :
      (max_conns : ℤ) (sys : System) (e : Event)
      → All (IsForeignLive org sys.store) sys.live
      → IsForeignEvent org sys.store e
      → Leaves sys.store (step decode max_conns sys e).live (step decode max_conns sys e).store
  unfolding step
  step-Leaves max_conns sys (arrives inc) fs f =
      elim (Bool-cases
        (is_stopped sys.stopped || not (ltb (length sys.live) (capacity max_conns)))) [
          | inl shed ↦ rw shed (unchanged sys.store _ fs)
          | inr room ↦ rw room (
              unchanged sys.store _
                (All-append (IsForeignLive org sys.store) sys.live (waiting inc ∷ []) fs (f, tt)))
        ]
  step-Leaves max_conns sys (accept_fails e) fs f = elim (Bool-cases (is_stopped sys.stopped)) [
    | inl over ↦ rw over (unchanged sys.store _ fs)
    | inr going ↦ rw going (unchanged sys.store _ fs)
  ]
  step-Leaves max_conns sys cancels fs f = unchanged sys.store _ fs
  step-Leaves max_conns sys (runs now i) fs f = run_nth-Leaves now sys.store sys.live i fs

  -- Whatever the connections that are served at once send, and in whatever order they are run, an
  -- organisation sees what it saw before, unless a verified certificate names one of its devices.
  pub run-SameView :
      (max_conns : ℤ) (sys : System) (es : List Event)
      → All (IsForeignLive org sys.store) sys.live
      → All (IsForeignEvent org sys.store) es
      → SameView sys.store (run decode max_conns sys es).store (org_scope org)
  unfolding run
  run-SameView max_conns sys [] fs gs = SameView-refl sys.store (org_scope org)
  run-SameView max_conns sys (e ∷ es) fs (g, gs) =
      let one = step-Leaves max_conns sys e fs g in
      let sys' = step decode max_conns sys e in
      SameView-trans one.same_view (
        run-SameView max_conns sys' es one.foreign
          (IsForeignEvent-kept sys.store sys'.store es one.keeps gs))

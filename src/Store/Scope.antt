-- ===== src/Store/Scope.antt =====
-- internal/store/scope.go: the tenant scope that every read demands.
use enisa_sbd_example.Common.{◌==◌, if◌then◌else◌, Bytes, length, Result, ok, err}
use enisa_sbd_example.Authn.Identity.{Identity}
use enisa_sbd_example.Store.Model.{Error, no_scope}

-- The interface has one implementation, and an untyped nil is a value of it too.
pub data Scope : Type 0 where
  nil_scope : Scope
  org_scope : Bytes → Scope

unfoldable pub scope_for : Identity → Result Error Scope
scope_for id = if length id.org_id == 0 then err no_scope else ok (org_scope id.org_id)

unfoldable pub org_of : Scope → Result Error Bytes
org_of nil_scope = err no_scope
org_of (org_scope org) = if length org == 0 then err no_scope else ok org

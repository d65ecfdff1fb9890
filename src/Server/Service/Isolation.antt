-- ===== src/Server/Service/Isolation.antt =====
-- Tenants do not see one another's operations.
use zanguard.Prelude.{ℕ, ◌≡◌, ◌≢◌, ap, some}
use zanguard.Js.Text.{Text}
use zanguard.Server.Model.{ok, TenantContext}
use zanguard.Server.Engine.{CheckRequest, Lookups, ExprLang}
use zanguard.Server.Engine.Check.{Engine, check}
use zanguard.Server.Store.{
  Store, tuples_of, check_tenant_readable, readable_tuples, check_direct, list_subjects,
  list_related_objects, get_object_attributes, get_subject_attributes,
}
use zanguard.Server.Store.Reach.{Op, apply}
use zanguard.Server.Service.{lookups}
use zanguard.Server.Service.Untouched.{tenant_of, Untouched, apply-Untouched}

readable_tuples-Untouched :
    (tc : TenantContext) (s s' : Store)
    → Untouched tc.tenant_id s s'
    → readable_tuples (some tc) s' ≡ readable_tuples (some tc) s
unfolding readable_tuples check_tenant_readable tuples_of
readable_tuples-Untouched tc s s' u = rw (u.tenants, u.tuples)

module _ (now : ℕ) (tc : TenantContext) (s s' : Store) (u : Untouched tc.tenant_id s s') where
  check_direct-Untouched :
      (t o r k i : Text)
      → check_direct now s' (some tc) t o r k i ≡ check_direct now s (some tc) t o r k i
  unfolding check_direct
  check_direct-Untouched t o r k i = rw (readable_tuples-Untouched tc s s' u)

  list_subjects-Untouched :
      (t o r : Text) → list_subjects now s' (some tc) t o r ≡ list_subjects now s (some tc) t o r
  unfolding list_subjects
  list_subjects-Untouched t o r = rw (readable_tuples-Untouched tc s s' u)

  list_related_objects-Untouched :
      (t o r : Text)
      → list_related_objects now s' (some tc) t o r ≡ list_related_objects now s (some tc) t o r
  unfolding list_related_objects
  list_related_objects-Untouched t o r = rw (readable_tuples-Untouched tc s s' u)

  get_object_attributes-Untouched :
      (t o : Text)
      → get_object_attributes now s' (some tc) t o ≡ get_object_attributes now s (some tc) t o
  unfolding get_object_attributes check_tenant_readable
  get_object_attributes-Untouched t o = rw (u.tenants, u.obj_attrs)

  get_subject_attributes-Untouched :
      (t o : Text)
      → get_subject_attributes now s' (some tc) t o ≡ get_subject_attributes now s (some tc) t o
  unfolding get_subject_attributes check_tenant_readable
  get_subject_attributes-Untouched t o = rw (u.tenants, u.sub_attrs)

  lookups-Untouched : lookups now s' (some tc) ≡ lookups now s (some tc)
  lookups-Untouched = λ x. record {
    check_direct = λ t o r k i. check_direct-Untouched t o r k i x;
    list_subjects = λ t o r. list_subjects-Untouched t o r x;
    list_related_objects = λ t o r. list_related_objects-Untouched t o r x;
    get_object_attributes = λ t o. get_object_attributes-Untouched t o x;
    get_subject_attributes = λ t o. get_subject_attributes-Untouched t o x;
  }

-- For an engine on the memory store: an operation of the store on one tenant, if it succeeds, leaves
-- every answer of `Check` for another tenant as it is, on every branch, errors included.
pub check_isolated :
    (lang : ExprLang) (e : Engine) (now later : ℕ) (op : Op) (s s' : Store) (tc : TenantContext)
    (req : CheckRequest)
    → apply now op s ≡ ok s'
    → tenant_of op ≢ some tc.tenant_id
    → check lang (lookups later s') e (some tc) req ≡ check lang (lookups later s) e (some tc) req
unfolding check
check_isolated lang e now later op s s' tc req h k =
    ap (λ (l : Lookups). check lang (λ _. l) e (some tc) req)
      (lookups-Untouched later tc s s' (apply-Untouched tc.tenant_id now op s s' h k))

-- ===== src/Schema/Switching.antt =====
-- What happens to the schema editor when another tenant is selected.
use zanguard.Prelude.{◌≡◌, refl, ap, ◌∙◌, false, Option, none, some, List, [], ◌∷◌, All, push}
use zanguard.Js.Text.{Text, is_empty}
use zanguard.Api.Types.{SchemaResponse}
use zanguard.Api.Requests.{Request, load_schema}
use zanguard.Ui.{use_state}
use zanguard.Schema.Page.{Editor, editor_state, phase, save_request}

-- A tenant that is selected, whose response is cached, so that nothing loads.
abbrev pub Visit : Type 0
Visit = Text × Option SchemaResponse

abbrev pub IsTenant : Visit → Type 0
IsTenant v = is_empty v.0 ≡ false

-- The selected tenant and the editor.
pub record Session : Type 0 where
  pub tenant : Option Text
  pub editor : Option Editor

-- A tenant is selected, and the page rendered.
unfoldable pub visit : Visit → Session → Session
visit (id, response) s = record {
  tenant = some id;
  editor = editor_state (phase (some id) false) response s.editor;
}

unfoldable pub visit_all : List Visit → Session → Session
visit_all [] s = s
visit_all (v ∷ visits) s = visit_all visits (visit v s)

abbrev pub request_by : Option Text → Option Editor → Option Request
request_by (some id) (some e) = some (save_request id e)
request_by _ _ = none

-- What the save button sends.
unfoldable pub request_of : Session → Option Request
request_of s = request_by s.tenant s.editor

visit-editor :
    (id : Text) (response : Option SchemaResponse) (tenant : Option Text) (e : Editor)
    → is_empty id ≡ false
    → visit (id, response) (record { tenant = tenant; editor = some e })
      ≡ record { tenant = some id; editor = some e }
unfolding visit editor_state phase use_state
visit-editor id response tenant e given = rw given refl

visit_all-editor :
    (visits : List Visit) (id : Text) (response : Option SchemaResponse) (tenant : Option Text)
    (e : Editor)
    → All IsTenant visits
    → is_empty id ≡ false
    → visit_all (push visits (id, response)) (record { tenant = tenant; editor = some e })
      ≡ record { tenant = some id; editor = some e }
unfolding visit_all
visit_all-editor [] id response tenant e h given = visit-editor id response tenant e given
visit_all-editor ((other, cached) ∷ visits) id response tenant e (known, h) given =
    ap (visit_all (push visits (id, response))) (visit-editor other cached tenant e known)
    ∙ visit_all-editor visits id response (some other) e h given

-- When tenants are selected one after another whose schemas are cached, the editor keeps the text
-- that it had and its errors, whatever the schemas of the tenants, and the save button then sends
-- that text as the schema of the tenant that was selected last.
pub switching_tenant_keeps_text :
    (visits : List Visit) (id : Text) (response : Option SchemaResponse) (tenant : Option Text)
    (e : Editor)
    → All IsTenant visits
    → is_empty id ≡ false
    → ((visit_all (push visits (id, response)) (record { tenant = tenant; editor = some e })).editor
        ≡ some e)
      × (request_of
            (visit_all (push visits (id, response)) (record { tenant = tenant; editor = some e }))
          ≡ some (load_schema id e.value))
unfolding request_of save_request
switching_tenant_keeps_text visits id response tenant e h given =
    rw (visit_all-editor visits id response tenant e h given) (refl, refl)

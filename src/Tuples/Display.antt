-- ===== src/Tuples/Display.antt =====
-- `TupleDisplay` of console/src/components/tuples/tuple-display.tsx: the text that its spans show.
use zanguard.Prelude.{Option, none, some, [], ◌∷◌, ◌++◌, if◌then◌else◌}
use zanguard.Js.Text.{Text, is_empty}
use zanguard.Api.Types.{RelationTuple}

pub record TupleDisplayProps : Type 0 where
  pub object_type : Text
  pub object_id : Text
  pub relation : Text
  pub subject_type : Text
  pub subject_id : Text
  pub subject_relation : Option Text

-- `{subjectRelation && <>#{subjectRelation}</>}`
abbrev pub relation_suffix : Option Text → Text
relation_suffix none = []
relation_suffix (some r) = if is_empty r then [] else b'#' ∷ r

unfoldable pub tuple_display : TupleDisplayProps → Text
tuple_display t =
    t.object_type
    ++ b':'
      ∷ (t.object_id
          ++ b'#'
            ∷ (t.relation
                ++ b'@'
                  ∷ (t.subject_type
                      ++ b':' ∷ (t.subject_id ++ relation_suffix t.subject_relation))))

-- The properties that the table and the changelog pass on.
unfoldable pub display_props : RelationTuple → TupleDisplayProps
display_props t = record {
  object_type = t.object_type;
  object_id = t.object_id;
  relation = t.relation;
  subject_type = t.subject_type;
  subject_id = t.subject_id;
  subject_relation = t.subject_relation;
}

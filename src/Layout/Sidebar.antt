-- ===== src/Layout/Sidebar.antt =====
-- `Sidebar` of console/src/components/layout/sidebar.tsx.
use zanguard.Prelude.{
  ℕ, ◌≤◌, ◌≡◌, Bool, true, Option, none, some, List, [], ◌∷◌, map, if◌then◌else◌, arith, length,
  select,
}
use zanguard.Js.Text.{Text, text, starts_with}

pub record NavItem : Type 0 where
  pub href : Text
  pub label : Text

abbrev pub nav_items : List NavItem
nav_items =
    record { href = text "/schema"; label = text "Schema" }
    ∷ record { href = text "/tuples"; label = text "Tuples" }
    ∷ record { href = text "/attributes"; label = text "Attributes" }
    ∷ record { href = text "/explorer"; label = text "Explorer" }
    ∷ record { href = text "/changelog"; label = text "Changelog" }
    ∷ []

-- A link: where it leads, whether it is active, its label, or its tooltip where the bar is
-- collapsed.
pub record NavLink : Type 0 where
  pub href : Text
  pub active : Bool
  pub label : Option Text
  pub tooltip : Option Text

unfoldable pub is_active : Text → NavItem → Bool
is_active pathname item = starts_with item.href pathname

unfoldable pub nav_link : (collapsed : Bool) → Text → NavItem → NavLink
nav_link collapsed pathname item = record {
  href = item.href;
  active = is_active pathname item;
  label = if collapsed then none else some item.label;
  tooltip = if collapsed then some item.label else none;
}

pub record SidebarView : Type 0 where
  pub title : Option Text
  pub links : List NavLink

unfoldable pub sidebar : (collapsed : Bool) → Text → SidebarView
sidebar collapsed pathname = record {
  title = if collapsed then none else some (text "ZanGuard");
  links = map (nav_link collapsed pathname) nav_items;
}

-- The character behind the slash tells the links apart.
abbrev second : Text → ℕ
second (x ∷ y ∷ s) = y
second s = 0

starts_with-second : (a c : ℕ) (p s : Text) → starts_with (a ∷ c ∷ p) s ≡ true → second s ≡ c
unfolding starts_with
starts_with-second a c p [] h = cc
starts_with-second a c p (x ∷ []) h = ground arith
starts_with-second a c p (x ∷ y ∷ s) h = ground arith

-- Whatever the path and whether or not the bar is collapsed, at most one link is active.
pub one_link_active :
    (collapsed : Bool) (pathname : Text)
    → length (select (λ (l : NavLink). l.active) (sidebar collapsed pathname).links) ≤ 1
unfolding sidebar nav_link is_active
one_link_active collapsed pathname = ground (
  arith,
  starts_with-second b'/' b's' (text "chema") pathname,
  starts_with-second b'/' b't' (text "uples") pathname,
  starts_with-second b'/' b'a' (text "ttributes") pathname,
  starts_with-second b'/' b'e' (text "xplorer") pathname,
  starts_with-second b'/' b'c' (text "hangelog") pathname,
)

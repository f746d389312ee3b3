-- ===== src/Json/Sample.antt =====
-- A JSON library, for the examples: a value is a tree, and its numbers are unsigned.
use did_vc.Base.{
  Str, codes, str_eq, false, Bool-cases, if◌then◌else◌, List, [], ◌∷◌, Option, none, some, ◌≡◌,
  refl, inl, inr,
}
use did_vc.Json.Interface.{Kind, object, string, unsigned, boolean, lookup, JsonLib}

mutual
  pub data Tree : Type 0 where
    scalar : Kind → Tree
    node : Members → Tree

  pub data Members : Type 0 where
    no_members : Members
    with_member : Str → Tree → Members → Members

abbrev pub members_of : List (Str × Tree) → Members
members_of [] = no_members
members_of ((key, v) ∷ rest) = with_member key v (members_of rest)

abbrev pub member_of : Members → Str → Option Tree
member_of no_members key = none
member_of (with_member k v rest) key = if str_eq k key then some v else member_of rest key

abbrev pub kind_of : Tree → Kind
kind_of (scalar k) = k
kind_of (node ms) = object

abbrev pub member_in : Tree → Str → Option Tree
member_in (scalar k) key = none
member_in (node ms) key = member_of ms key

member_of-members_of :
    (members : List (Str × Tree)) (key : Str)
    → member_of (members_of members) key ≡ lookup key members
member_of-members_of [] key = refl
member_of-members_of ((k, v) ∷ rest) key = elim (Bool-cases (str_eq k key)) [
  | inl same ↦ rw same refl
  | inr differ ↦ rw differ (member_of-members_of rest key)
]

pub tree_lib : JsonLib
tree_lib = record {
  Value = Tree;
  kind = kind_of;
  member = member_in;
  dump = λ v. codes "?";
  print_float = λ v. codes "0";
  is_nonzero = λ v. false;
  make_object = λ members. node (members_of members);
  make_string = λ s. scalar (string s);
  make_number = λ n. scalar (unsigned n);
  make_boolean = λ b. scalar (boolean b);
  kind-make_object = λ members. refl;
  member-make_object = member_of-members_of;
  kind-make_string = λ s. refl;
  kind-make_number = λ n. refl;
  kind-make_boolean = λ b. refl;
}

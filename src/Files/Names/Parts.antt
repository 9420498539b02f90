-- ===== src/Files/Names/Parts.antt =====
-- How parent_path, base_name and join_path fit together.
use sis_op.Base.{◌≡◌, ◌≢◌, false, some, [], ◌∷◌, ◌++◌, arith, Option-cases, inl, inr}
use sis_op.Base.Keys.{Bytes}
use sis_op.Files.Names.{slash, join_path, cut_last, parent_path, base_name, ends_in_slash}

cut_last-whole :
    (path before after : Bytes)
    → cut_last path ≡ some (before, after)
    → before ++ (slash ∷ after) ≡ path
unfolding cut_last
cut_last-whole [] before after h = cc
cut_last-whole (c ∷ cs) before after h = elim (Option-cases (cut_last cs)) [
  | inl e ↦ ground arith
  | inr ((b, a), e) ↦ ground (arith, cut_last-whole cs b a e)
]

-- A path below some folder is that folder and its base name joined. (A folder that itself ends in
-- a slash, as in "a//b", is excepted; no valid path has one.)
pub join_path-parent_path :
    (path : Bytes)
    → ends_in_slash (parent_path path) ≡ false
    → parent_path path ≢ []
    → join_path (parent_path path) (base_name path) ≡ path
unfolding join_path parent_path base_name
join_path-parent_path path h ne = elim (Option-cases (cut_last path)) [
  | inl e ↦ ground arith
  | inr ((b, a), e) ↦ ground (arith, cut_last-whole path b a e)
]

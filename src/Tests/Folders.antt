-- ===== src/Tests/Folders.antt =====
-- A watcher over a folder that holds another one.
use sis_op.Base.{ℕ, zero, suc, ◌+◌, ◌*◌, ◌≡◌, refl, ap, sym, inl, inr, true, some, [], ◌∷◌, arith}
use sis_op.Base.Keys.{Bytes, bytes_cmp}
use sis_op.Protocol.Names.{text}
use sis_op.Files.Names.{is_valid_path, check_components, components, is_valid_file_name, all_chars}
use sis_op.Client.Watcher.{
  Folder, nothing, file, folder, child_path, Watcher, start, watching, handle_event,
}
use sis_op.Client.Watcher.Watched.{
  Below, direct, start-Tracks, written, moved_in, start-heard, moved_in-heard,
}

-- A number for each byte string.
unfoldable pair : ℕ → ℕ → ℕ
pair zero n = 2 * n + 1
pair (suc c) n = 2 * pair c n

unfoldable wd_of : Bytes → ℕ
wd_of [] = 0
wd_of (c ∷ cs) = pair c (wd_of cs) + 1

pair_injective : (c d m n : ℕ) → pair c m ≡ pair d n → (c ≡ d) × (m ≡ n)
unfolding pair
pair_injective zero zero m n h = (refl, omega (arith, h))
pair_injective zero (suc d) m n h = omega (arith, h)
pair_injective (suc c) zero m n h = omega (arith, h)
pair_injective (suc c) (suc d) m n h =
    let (e, f) = pair_injective c d m n (omega (arith, h)) in (ap suc e, f)

positive : (n : ℕ) → 0 ≡ n + 1 → ⊥
positive n h = omega (arith, h)

distinct : (p q : Bytes) → wd_of p ≡ wd_of q → p ≡ q
unfolding wd_of
distinct [] [] h = refl
distinct [] (d ∷ q) h = elim (positive _ h) [ ]
distinct (c ∷ p) [] h = elim (positive _ (sym h)) [ ]
distinct (c ∷ p) (d ∷ q) h =
    let (e, f) = pair_injective c d (wd_of p) (wd_of q) (omega (arith, h)) in cc (e, distinct p q f)

abbrev root : Folder
root = folder (text "d") (file (text "a") nothing) nothing

d-Below : Below [] root (text "d")
unfolding is_valid_file_name is_valid_path check_components components all_chars child_path
    bytes_cmp
d-Below = direct refl refl

d_b : is_valid_path (child_path (text "d") (text "b")) ≡ true
unfolding is_valid_path check_components components all_chars child_path is_valid_file_name
    bytes_cmp
d_b = refl

start-heard_example :
    let w = start (λ p. some (wd_of p)) (wd_of []) root in
    handle_event (λ p. some (wd_of p)) (written wd_of distinct (text "d") (text "b")) nothing w
    ≡ watching w (child_path (text "d") (text "b") ∷ [])
start-heard_example =
    start-heard wd_of distinct root nothing (text "d") (text "b") (inr d-Below) refl d_b

-- "b" is moved into "d", and "c" is written in it.
d_b_c : is_valid_path (child_path (child_path (text "d") (text "b")) (text "c")) ≡ true
unfolding is_valid_path check_components components all_chars child_path is_valid_file_name
    bytes_cmp
d_b_c = refl

moved_in-heard_example :
    (w' : Watcher) × (handle_event
        (λ p. some (wd_of p))
        (moved_in wd_of distinct (text "d") (text "b"))
        nothing
        (start (λ p. some (wd_of p)) (wd_of []) root)
      ≡ watching w' ([] ∷ []))
    × (handle_event
          (λ p. some (wd_of p))
          (written wd_of distinct (child_path (text "d") (text "b")) (text "c"))
          nothing
          w'
        ≡ watching w' (child_path (child_path (text "d") (text "b")) (text "c") ∷ []))
moved_in-heard_example =
    moved_in-heard wd_of distinct (start (λ p. some (wd_of p)) (wd_of []) root) (text "d")
      (text "b") nothing nothing (child_path (text "d") (text "b")) (text "c")
      (start-Tracks wd_of distinct root (text "d") (inr d-Below)) refl d_b (inl refl) refl d_b_c

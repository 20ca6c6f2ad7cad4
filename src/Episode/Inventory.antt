-- ===== src/Episode/Inventory.antt =====
-- What an inventory holds after a sequence of `AddFile` (server-go/modules/economizer/episode.go).
use aimee_module_economizer.Prelude.{
  ◌≡◌, refl, inl, inr, false, ◌||◌, List, [], ◌∷◌, ◌++◌, arith, Bytes, eq_bytes, eq_bytes_iff,
  Bool-cases,
}
use aimee_module_economizer.Episode.{EpisodeSeal, add_file, touches, is_file}

-- the paths added in order
unfoldable pub add_files : List Bytes → EpisodeSeal → EpisodeSeal
add_files [] s = s
add_files (p ∷ ps) s = add_files ps (add_file p s)

-- No path stands twice.
abbrev pub NoRepeat : List Bytes → Type 0
NoRepeat [] = Unit
NoRepeat (f ∷ fs) = (is_file f fs ≡ false) × NoRepeat fs

is_file-append :
    (q : Bytes) (fs : List Bytes) (p : Bytes)
    → is_file q (fs ++ p ∷ []) ≡ (is_file q fs || eq_bytes p q)
is_file-append q [] p = ground arith
is_file-append q (f ∷ fs) p = ground (arith, is_file-append q fs p)

NoRepeat-append :
    (fs : List Bytes) (p : Bytes) → NoRepeat fs → is_file p fs ≡ false → NoRepeat (fs ++ p ∷ [])
NoRepeat-append [] p h k = (refl, tt)
NoRepeat-append (f ∷ fs) p (a, h) k = (
  ground (arith, is_file-append f fs p, a, k, eq_bytes_iff f p, eq_bytes_iff p f),
  NoRepeat-append fs p h (ground (arith, k)),
)

add_file-NoRepeat : (p : Bytes) (s : EpisodeSeal) → NoRepeat s.files → NoRepeat (add_file p s).files
unfolding add_file
add_file-NoRepeat p s h = elim (Bool-cases (eq_bytes p [])) [
  | inl e ↦ rw e h
  | inr e ↦ elim (Bool-cases (is_file p s.files)) [
    | inl f ↦ rw (e, f) h
    | inr f ↦ rw (e, f) (NoRepeat-append s.files p h f)
  ]
]

touches-add_file :
    (p q : Bytes) (s : EpisodeSeal)
    → eq_bytes q [] ≡ false
    → touches q (add_file p s) ≡ (eq_bytes p q || touches q s)
unfolding touches add_file
touches-add_file p q s n = elim (Bool-cases (eq_bytes p [])) [
  | inl e ↦ ground (arith, e, n, eq_bytes_iff p [], eq_bytes_iff p q, eq_bytes_iff q [])
  | inr e ↦ elim (Bool-cases (is_file p s.files)) [
    | inl f ↦ elim (Bool-cases (eq_bytes p q)) [
      | inl g ↦ let f' = rw ((eq_bytes_iff p q).0 g) at f in rw (e, f, n, g) f'
      | inr g ↦ rw (e, f, n, g) refl
    ]
    | inr f ↦ ground (arith, e, f, n, is_file-append q s.files p)
  ]
]

add_files-NoRepeat :
    (ps : List Bytes) (s : EpisodeSeal) → NoRepeat s.files → NoRepeat (add_files ps s).files
unfolding add_files
add_files-NoRepeat [] s h = h
add_files-NoRepeat (p ∷ ps) s h = add_files-NoRepeat ps (add_file p s) (add_file-NoRepeat p s h)

touches-add_files :
    (ps : List Bytes) (q : Bytes) (s : EpisodeSeal)
    → eq_bytes q [] ≡ false
    → touches q (add_files ps s) ≡ (is_file q ps || touches q s)
unfolding add_files
touches-add_files [] q s n = refl
touches-add_files (p ∷ ps) q s n =
    ground (arith, touches-add_files ps q (add_file p s) n, touches-add_file p q s n)

-- From any inventory without repeats, adding paths leaves one without repeats, which covers a file
-- exactly if it covered it before or the file is among the paths. The file's name is not empty.
pub add_files-touches :
    (ps : List Bytes) (s : EpisodeSeal) (q : Bytes)
    → NoRepeat s.files
    → eq_bytes q [] ≡ false
    → NoRepeat (add_files ps s).files × (touches q (add_files ps s) ≡ (is_file q ps || touches q s))
add_files-touches ps s q h n = (add_files-NoRepeat ps s h, touches-add_files ps q s n)

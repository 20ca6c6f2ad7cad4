-- ===== src/Episode/Tests.antt =====
-- An inventory of server-go/modules/economizer/episode_test.go, and the theorem at it.
use aimee_module_economizer.Prelude.{◌≡◌, refl, false, ◌||◌, List, [], ◌∷◌, Bytes, codes, eq_bytes}
use aimee_module_economizer.Episode.{EpisodeSeal, add_file, touches, is_file}
use aimee_module_economizer.Episode.Inventory.{NoRepeat, add_files, add_files-touches}

abbrev blank : EpisodeSeal
blank = record { conclusion = []; files = [] }

abbrev paths : List Bytes
paths = codes "a.go" ∷ codes "b.go" ∷ codes "a.go" ∷ []

two_files : (add_files paths blank).files ≡ codes "a.go" ∷ codes "b.go" ∷ []
unfolding add_files add_file eq_bytes
two_files = refl

named : eq_bytes (codes "b.go") [] ≡ false
unfolding eq_bytes
named = refl

add_files-touches_example :
    NoRepeat (add_files paths blank).files
    × (touches (codes "b.go") (add_files paths blank)
        ≡ (is_file (codes "b.go") paths || touches (codes "b.go") blank))
add_files-touches_example = add_files-touches paths blank (codes "b.go") tt named

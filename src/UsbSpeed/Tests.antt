-- ===== src/UsbSpeed/Tests.antt =====
-- A device that is plugged at different speeds, its identifier spelled in two ways.
use spyder.Prelude.{◌≡◌, refl, true, some, none, List, [], ◌∷◌, lookup, insert}
use spyder.Prelude.Bytes.{bytes, bytes_eq}
use spyder.UsbSpeed.{Store, canonical_id, open_store, has}
use spyder.UsbSpeed.Ratchet.{Call, sets, observes, serve_all, highest, serve_all-highest}

abbrev empty : Store
empty = record { speeds = [] }

abbrev plugs : List Call
plugs =
    observes (bytes "0000-abcd") 3
    ∷ sets (bytes "other") 5
    ∷ observes (bytes "0000ABCD") 4
    ∷ observes (bytes "0000abcd") 2
    ∷ []

serve_all-highest_example :
    lookup (canonical_id (bytes "0000-ABCD")) (serve_all empty plugs).speeds
    ≡ highest none (bytes "0000-ABCD") plugs
unfolding lookup
serve_all-highest_example = serve_all-highest empty plugs (bytes "0000-ABCD")

highest_speed : highest none (bytes "0000-ABCD") plugs ≡ some 4
unfolding highest
highest_speed = refl

abbrev at_four : Store
at_four = record { speeds = (bytes "0000ABCD", 4) ∷ [] }

-- A file with a dashed key is read under the key without dashes.
read_back : has (open_store (some ((bytes "0000-abcd", 3) ∷ []))) (bytes "0000ABCD") ≡ true
unfolding has open_store lookup insert
read_back = refl

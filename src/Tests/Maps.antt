-- ===== src/Tests/Maps.antt =====
-- A hash map with room for four keys.
use kahypar.Prelude.{ℕ, ◌≡◌, refl, Bool, true, false, Option, some, arith, ◌==◌, if◌then◌else◌}
use mathlib.Core.Option
use kahypar.Containers.HashMap.{
  HashMap, create, insert_impl, find_position, scan, fill_slot, contains, erase,
}
use kahypar.Containers.HashMap.Insert.{is_special, IsValid, lookup}
use kahypar.Containers.HashMap.Lookup.{lookup-insert_impl, or_new}

abbrev id_hash : ℕ → ℕ
id_hash key = key

abbrev fresh_map : HashMap ℕ
fresh_map = record {
  empty_element_key = false;
  deleted_element_key = false;
  empty_value = 0;
  deleted_value = 0;
  ht_size = 8;
  max_size = 4;
  slots = 12;
  keys = λ p. 1000;
  values = λ p. 0;
  num_poses = 0;
  poses = λ i. 0;
  pos_in_position = λ p. 0;
  last_key = 1000;
  last_position = 0;
}

created : create ℕ id_hash true 1000 0 4 2 12 ≡ fresh_map
unfolding create
created = refl

fresh_map-IsValid : IsValid ℕ id_hash true 1000 0 fresh_map
fresh_map-IsValid = record {
  probed = λ p inside usual. absurd (ground (arith, usual));
  kept = λ c usual. absurd (usual refl);
}

abbrev seven : HashMap ℕ
seven =
    fill_slot ℕ id_hash true 1000 0 (record fresh_map { last_key = 7; last_position = 7 }) 7 7 70

inserted_seven : insert_impl ℕ id_hash true 1000 0 fresh_map 7 70 ≡ some seven
unfolding insert_impl find_position scan
inserted_seven = refl

lookup-insert_impl_example :
    IsValid ℕ id_hash true 1000 0 seven
    × ((x : ℕ)
        → is_special ℕ id_hash true 1000 0 x ≡ false
        → lookup ℕ id_hash true 1000 0 seven x ≡ (
            if 7 == x
            then or_new ℕ id_hash true 1000 0 (lookup ℕ id_hash true 1000 0 fresh_map x) 70
            else lookup ℕ id_hash true 1000 0 fresh_map x))
lookup-insert_impl_example =
    lookup-insert_impl ℕ id_hash true 1000 0 fresh_map seven 7 70 fresh_map-IsValid refl
      inserted_seven

-- With the position of the last key kept, a key that was just erased is still contained.
erased_key : Bool → Option Bool
erased_key cached = Option.bind (insert_impl ℕ id_hash cached 1000 0 fresh_map 7 70) (λ m.
    Option.bind (erase ℕ id_hash cached 1000 0 m 7)
      (λ e. Option.map (λ c. c.1) (contains ℕ id_hash cached 1000 0 e 7)))

erased_key_contained : erased_key true ≡ some true
unfolding erased_key insert_impl erase contains find_position scan Option.bind
erased_key_contained = refl

erased_key_gone : erased_key false ≡ some false
unfolding erased_key insert_impl erase contains find_position scan Option.bind
erased_key_gone = refl

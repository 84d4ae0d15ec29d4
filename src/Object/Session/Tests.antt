-- ===== src/Object/Session/Tests.antt =====
-- A session over objects of one byte, and the theorems at it.
use oos.Prelude.{
  length, ℕ, zero, suc, ◌≡◌, refl, List, [], ◌∷◌, Option, none, some, ◌==◌, if◌then◌else◌, arith,
}
use oos.Prelude.Bytes.{Bytes, codes}
use oos.Object.Store.{Proxy, ObjectStore, attached, write_at}
use oos.Object.Transaction.{
  Action, Serializer, TransactionData, insert_action, update_action, delete_action, find_index,
}
use oos.Object.Session.{
  Session, Operation, insert, modify, remove, execute, run, restore_all, begin, commit, rollback,
}
use oos.Object.Session.Invariant.{IsStore, IsIdle, IsLogged, begin-IsLogged}
use oos.Object.Session.Delete.{KeepsIndices}
use oos.Object.Session.History.{AllRespect, AllRespect-cons, execute-IsLogged, rollback-run}
use oos.Object.Session.Commit.{effects, with_objects, commit-run}
use oos.Object.Session.Stale.{remove_after_erase}

abbrev read_byte : Bytes → Option (ℕ × Bytes)
read_byte [] = none
read_byte (b ∷ rest) = some (b, rest)

abbrev byte_serializer : Serializer ℕ
byte_serializer = record { write = λ o. o ∷ []; read = read_byte; read-write = λ o rest. refl }

abbrev person : Bytes
person = codes "person"

abbrev car : Bytes
car = codes "car"

abbrev first_person : Proxy ℕ
first_person = record { oid = 1; type = person; obj = 40 }

abbrev people : ObjectStore ℕ
people = record {
  prototypes = person ∷ car ∷ [];
  object_map = λ j. if j == 1 then some first_person else none;
  sequence = 1;
  transactions = [];
}

abbrev idle : TransactionData ℕ
idle = record { id = 7; actions = []; id_action_index_map = []; object_buffer = [] }

abbrev start : Session ℕ
start = record { store = people; data_ = idle }

people-IsStore : IsStore people
unfolding attached
people-IsStore = record {
  oid_is = λ j p e. ground arith;
  positive = λ j p e. ground arith;
  type_is = λ j p e. ground arith;
  handed_out = λ j p e. ground arith;
}

idle-IsIdle : IsIdle idle
idle-IsIdle = record { no_actions = refl; no_indices = refl; no_bytes = refl }

-- Change the person, add another and a car, and take the first person out.
abbrev script : List (Operation ℕ)
script = modify 1 41 ∷ insert person 50 ∷ insert car 60 ∷ remove 1 ∷ []

abbrev changed : Session ℕ
changed = record {
  store = record people {
    object_map = write_at 1 (some (record first_person { obj = 41 })) people.object_map;
    transactions = 7 ∷ [];
  };
  data_ = record idle {
    actions = update_action 1 ∷ [];
    id_action_index_map = (1, 0) ∷ [];
    object_buffer = 40 ∷ [];
  };
}

abbrev joined : Session ℕ
joined = record {
  store = record (changed.store) {
    object_map =
        write_at 2 (some (record { oid = 2; type = person; obj = 50 })) changed.store.object_map;
    sequence = 2;
  };
  data_ = record (changed.data_) {
    actions = update_action 1 ∷ insert_action person (2 ∷ []) ∷ [];
    id_action_index_map = (2, 1) ∷ (1, 0) ∷ [];
  };
}

abbrev parked : Session ℕ
parked = record {
  store = record (joined.store) {
    object_map =
        write_at 3 (some (record { oid = 3; type = car; obj = 60 })) joined.store.object_map;
    sequence = 3;
  };
  data_ = record (joined.data_) {
    actions = update_action 1 ∷ insert_action person (2 ∷ []) ∷ insert_action car (3 ∷ []) ∷ [];
    id_action_index_map = (3, 2) ∷ (2, 1) ∷ (1, 0) ∷ [];
  };
}

abbrev final : Session ℕ
final = record {
  store = record (parked.store) { object_map = write_at 1 none parked.store.object_map };
  data_ = record (parked.data_) {
    actions =
        delete_action 1 (record first_person { obj = 41 })
        ∷ insert_action person (2 ∷ [])
        ∷ insert_action car (3 ∷ [])
        ∷ [];
  };
}

run-script : run byte_serializer script (begin start) ≡ some final
unfolding run begin
run-script = refl

-- The first person is in an update action, which is never erased.
first_keeps : KeepsIndices 1 parked
unfolding find_index
first_keeps zero t f g = cc
first_keeps (suc i) t f g = absurd (ground arith)

script-AllRespect : AllRespect byte_serializer script (begin start)
unfolding execute begin
script-AllRespect =
    AllRespect-cons byte_serializer (modify 1 41) (insert person 50 ∷ insert car 60 ∷ remove 1 ∷ [])
      (begin start) changed refl tt
      (AllRespect-cons byte_serializer (insert person 50) (insert car 60 ∷ remove 1 ∷ []) changed
        joined refl tt
        (AllRespect-cons byte_serializer (insert car 60) (remove 1 ∷ []) joined parked refl tt
          (AllRespect-cons byte_serializer (remove 1) [] parked final refl first_keeps tt)))

execute-IsLogged_example : IsLogged byte_serializer people.object_map [] changed
unfolding execute begin
execute-IsLogged_example =
    execute-IsLogged byte_serializer people.object_map [] (modify 1 41) (begin start) changed
      (begin-IsLogged byte_serializer start people-IsStore idle-IsIdle) tt refl

rollback-run_example :
    rollback byte_serializer final
    ≡ some (record { store = record people { sequence = 3 }; data_ = idle })
rollback-run_example =
    rollback-run byte_serializer script start final people-IsStore idle-IsIdle script-AllRespect
      run-script

-- The observer lets the log of the script pass, and throws at any other number of actions.
abbrev three_actions : List (Action ℕ) → Option (List (Action ℕ))
three_actions actions = if length actions == 3 then some actions else none

commit-run_example :
    (restore_all byte_serializer final.data_.actions final.data_.object_buffer final.store
      ≡ some ([], record final.store { object_map = people.object_map }))
    × (commit three_actions final
        ≡ some (record {
          store = with_objects people (effects script (1, people.object_map));
          data_ = idle;
        }))
commit-run_example =
    commit-run byte_serializer three_actions script start final people-IsStore idle-IsIdle
      script-AllRespect run-script

remove_after_erase_example :
    (later : Session ℕ) × (run byte_serializer
        (insert person 1 ∷ insert car 2 ∷ remove 2 ∷ [])
        (begin start)
      ≡ some later)
    × (later.store.object_map 3 ≡ some (record { oid = 3; type = car; obj = 2 }))
    × (execute byte_serializer (remove 3) later ≡ none)
unfolding attached
remove_after_erase_example =
    remove_after_erase byte_serializer people idle person car 1 2 refl refl refl idle-IsIdle

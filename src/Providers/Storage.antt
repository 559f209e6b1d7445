-- ===== src/Providers/Storage.antt =====
-- providers/service.rs, `atomic_json` and `read_with_previous`: how a document of the core is replaced
-- on disk. Every state of the disk on the way is kept, since the program may stop at any of them. A
-- name has nothing, a file or a directory; links are not modelled. Of the failures of the disk only
-- that of the last rename is, which the code handles.
pub mod Laws
mod Tests
use central_core.Prelude.{Bool, true, false, List, [], ◌∷◌, Text, if◌then◌else◌}
use central_core.Errors.{Error, Result, ok, err}

pub data Stored : Type 0 where
  absent directory : Stored
  document : Text → Stored

-- The names `destination`, `json.tmp` and `json.previous`.
pub record Documents : Type 0 where
  pub destination : Stored
  pub temporary : Stored
  pub previous : Stored

-- The states after each step, and the result.
pub record Replacement : Type 0 where
  pub states : List Documents
  pub outcome : Result (Unit {0})

-- What a caller sees of a replacement: the document is written, it is not and the replacement has
-- failed, or it is and the replacement has failed after that, where the previous one is removed.
pub data Write : Type 0 where
  written : Write
  not_written written_but : Error → Write

-- The result of a write with the two states that it can leave.
abbrev pub outcome_of {ℓ} : {S : Type ℓ} → Write → (before after : S) → Result (Unit {0}) × S
outcome_of written before after = (ok tt, after)
outcome_of (not_written e) before after = (err e, before)
outcome_of (written_but e) before after = (err e, after)

abbrev unsafe : Text → Error
unsafe path = Error.unsafe_filesystem_entry path

abbrev pub step : Documents → Replacement → Replacement
step s rest = record rest { states = s ∷ rest.states }

abbrev pub stop : Documents → Result (Unit {0}) → Replacement
stop s r = record { states = s ∷ []; outcome = r }

-- `try_exists(&previous)` and `remove_file`
abbrev pub remove_previous : Documents → Stored → Replacement
remove_previous s absent = stop s (ok tt)
remove_previous s (document text) = step s (stop (record s { previous = absent }) (ok tt))
remove_previous s directory = stop s (err Error.io)

-- The rename onto the destination failed, and the previous document goes back if there is one.
abbrev pub put_back : Documents → Stored → Replacement
put_back s absent = stop s (err Error.io)
put_back s (document text) =
    step s (stop (record s { destination = document text; previous = absent }) (err Error.io))
put_back s directory =
    step s (stop (record s { destination = directory; previous = absent }) (err Error.io))

-- `rename(&temporary, &destination)`, and what follows it
unfoldable pub commit : Bool → Text → Documents → Replacement
commit is_failing bytes s =
    if is_failing
    then put_back s s.previous
    else step s
        (remove_previous (record s { destination = document bytes; temporary = absent }) s.previous)

-- `reject_non_file_or_symlink(&previous)` and `rename(&destination, &previous)`
abbrev pub save_previous : Bool → Text → Text → Text → Documents → Stored → Replacement
save_previous is_failing path bytes old s directory = stop s (err (unsafe path))
save_previous is_failing path bytes old s absent =
    step s (commit is_failing bytes (record s { destination = absent; previous = document old }))
save_previous is_failing path bytes old s (document text) = step s (
    step (record s { previous = absent })
      (commit is_failing bytes (record s { destination = absent; previous = document old })))

abbrev pub replace_destination : Bool → Text → Text → Documents → Stored → Replacement
replace_destination is_failing path bytes s absent = commit is_failing bytes s
replace_destination is_failing path bytes s directory = stop s (err (unsafe path))
replace_destination is_failing path bytes s (document old) =
    save_previous is_failing path bytes old s s.previous

unfoldable pub atomic_json : Bool → Text → Text → Documents → Replacement
unfolding commit
atomic_json is_failing path bytes s = step s (
    replace_destination is_failing path bytes (record s { temporary = document bytes })
      s.destination)

abbrev pub read_stored : Stored → Result Text → Result Text
read_stored (document text) otherwise = ok text
read_stored absent otherwise = otherwise
read_stored directory otherwise = err Error.io

-- `read_with_previous`: the previous document, if the destination is not found
unfoldable pub read_with_previous : Documents → Result Text
read_with_previous s = read_stored s.destination (read_stored s.previous (err Error.io))

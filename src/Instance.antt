-- ===== src/Instance.antt =====
-- The identity of an instance, of internal/app/instance.go. The file system answers as the record
-- `StateDirectory` says, and the random bytes come in as an argument.
pub mod Stable
use authrim_wordwarden.Prelude.{
  ℕ, Bool, true, false, not, ◌&&◌, ◌||◌, [], ◌∷◌, ◌++◌, Option, none, some, Text, lit, is_nil,
  if◌then◌else◌, eqb, leb, length, all,
}
use authrim_wordwarden.GoText.{Unicode, trim_space}
use authrim_wordwarden.GoText.Encoding.{has_prefix, drop_bytes, base64_raw_url}
use authrim_wordwarden.GoText.Escaping.{is_alnum}

pub data StoredFile : Type 0 where
  missing unreadable : StoredFile
  content : Text → StoredFile

-- Can the directory be made, what is in the file, can it be written, and what does a write leave
-- that fails?
pub record StateDirectory : Type 0 where
  pub made : Bool
  pub file : StoredFile
  pub writable : Bool
  pub leftover : StoredFile

unfoldable pub is_id_byte : ℕ → Bool
is_id_byte c = is_alnum c || (eqb c b'_' || eqb c b'-')

-- `instanceIDPattern`
unfoldable pub instance_id_matches : Text → Bool
instance_id_matches id =
    has_prefix id (lit "wwi_")
    && (leb 26 (length id) && (leb (length id) 68 && all is_id_byte (drop_bytes 4 id)))

-- `generateInstanceID`; no bytes are an error.
unfoldable pub generate_instance_id : Option Text → Option Text
generate_instance_id none = none
generate_instance_id (some bytes) = some (lit "wwi_" ++ base64_raw_url bytes)

-- Writes a new identifier.
unfoldable pub store : Option Text → StateDirectory → Option Text × StateDirectory
store none dir = (none, dir)
store (some value) dir =
    if dir.writable
    then (some value, record dir { file = content (value ++ lit "\n") })
    else (none, record dir { file = dir.leftover })

module _ (unicode : Unicode) where
  -- Behind the read of the file.
  unfoldable pub on_read : Option Text → StoredFile → StateDirectory → Option Text × StateDirectory
  on_read random missing dir = store (generate_instance_id random) dir
  on_read random unreadable dir = (none, dir)
  on_read random (content raw) dir =
      let value = trim_space unicode raw in
      if instance_id_matches value then (some value, dir) else (none, dir)

  -- `none` is an error.
  unfoldable pub load_or_create_instance_id :
      Text → Option Text → StateDirectory → Option Text × StateDirectory
  load_or_create_instance_id state_dir random dir =
      if is_nil (trim_space unicode state_dir) || not dir.made
      then (none, dir)
      else on_read random dir.file dir

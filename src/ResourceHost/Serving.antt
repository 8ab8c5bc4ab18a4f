-- ===== src/ResourceHost/Serving.antt =====
-- Which files and folders a resource can come from.
use my_power_mirror.Base.{◌≡◌, true, false, none, some, List, ◌∷◌, ◌++◌, Bytes, u32, All}
use my_power_mirror.ResourceHost.{
  FileSystem, Stat, Resource, owner_access, is_dir, is_reg, with_slash, valid_indexes,
  lookup_mime_type, get_extension, file_data, generate_dir_list, directory_resource,
}

-- The resource of a file with this state: its owner may access it, it is read at this very path,
-- and given with as many bytes as the state says, under the type of its extension.
pub record FileFrom (fs : FileSystem) (path : Bytes) (sb : Stat) (r : Resource) : Type 0 where
  pub content : Bytes
  pub access : owner_access sb ≡ true
  pub loaded : fs.load path ≡ some content
  pub made : r ≡ record {
    location = path;
    directory = false;
    mime_type = lookup_mime_type (get_extension path);
    contents = file_data (u32 sb.st_size) content;
    contents_size = u32 sb.st_size;
  }

-- None of these files is there.
abbrev pub Missing : FileSystem → Bytes → List Bytes → Type 0
Missing fs path = All (λ name. fs.stat (path ++ name) ≡ none)

-- The first of these files that is there has this state, and the resource comes from it.
pub record FirstFrom (fs : FileSystem) (path : Bytes) (names : List Bytes) (r : Resource)
    : Type 0 where
  pub before : List Bytes
  pub name : Bytes
  pub after : List Bytes
  pub sidx : Stat
  pub split : names ≡ before ++ name ∷ after
  pub earlier : Missing fs path before
  pub found : fs.stat (path ++ name) ≡ some sidx
  pub from : FileFrom fs (path ++ name) sidx r

-- Where the resource of a path can come from: the file there, the first index file of the directory
-- there, or the directory, which its owner may access, as a listing.
pub data IsFrom (fs : FileSystem) (base path : Bytes) (sb : Stat) (r : Resource) : Type 0 where
  file : is_dir sb ≡ false → is_reg sb ≡ true → FileFrom fs path sb r → IsFrom fs base path sb r
  index :
      is_dir sb ≡ true → FirstFrom fs (with_slash path) valid_indexes r → IsFrom fs base path sb r
  listing :
      is_dir sb ≡ true
      → Missing fs (with_slash path) valid_indexes
      → owner_access sb ≡ true
      → r ≡ directory_resource (with_slash path) (generate_dir_list fs base (with_slash path))
      → IsFrom fs base path sb r

-- ===== src/ResourceHost/Tests.antt =====
-- A file system with one file, or with one folder.
use my_power_mirror.Base.{◌≡◌, refl, true, false, none, some, [], ◌∷◌, map, codes}
use my_power_mirror.HttpMessage.{has_byte}
use my_power_mirror.ResourceHost.{
  FileSystem, Stat, Resource, get_extension, lookup_mime_type, get_resource, read_directory,
  read_index, valid_indexes, with_slash, directory_resource, read_file,
}
use my_power_mirror.ResourceHost.Listing.{read_directory-root_page, root_page}

-- A regular file that its owner may read and write.
abbrev file_stat : Stat
file_stat = record { st_mode = 33188; st_size = 2 }

abbrev one_file : FileSystem
one_file = record {
  stat = λ path. some file_stat;
  load = λ path. some (codes "hi");
  entries = λ path. none;
}

abbrev hi : Resource
hi = record {
  location = codes "w/a.txt";
  directory = false;
  mime_type = lookup_mime_type (get_extension (codes "w/a.txt"));
  contents = map some (codes "hi");
  contents_size = 2;
}

found_hi : get_resource one_file (codes "w") (codes "/a.txt") ≡ some hi
unfolding get_resource read_file
found_hi = refl

abbrev one_folder : FileSystem
one_folder = record {
  stat = λ path. none;
  load = λ path. none;
  entries = λ path. some (codes "b" ∷ []);
}

abbrev folder_stat : Stat
folder_stat = record { st_mode = 16877; st_size = 0 }

no_index : read_index one_folder (with_slash (codes "w/a")) valid_indexes ≡ none
unfolding read_index
no_index = refl

slash_there : has_byte b'/' (codes "w/") ≡ true
unfolding has_byte
slash_there = refl

read_directory-root_page_example :
    read_directory one_folder (codes "w/") (codes "w/a") folder_stat
    ≡ some (
        directory_resource
          (with_slash (codes "w/a"))
          (root_page (one_folder.entries (with_slash (codes "w/a")))))
read_directory-root_page_example =
    read_directory-root_page one_folder (codes "w/") (codes "w/a") folder_stat slash_there no_index
      refl

-- ===== src/ResourceHost/MimeTypes.antt =====
-- src/MimeTypes.inc: the pairs of `mimeMap`, in their order.
mod First
mod Second
mod Third
use my_power_mirror.Base.{List, ◌++◌, Bytes}
use First.{first_types}
use Second.{second_types}
use Third.{third_types}

unfoldable pub mime_types : List (Bytes × Bytes)
unfolding first_types second_types third_types
mime_types = first_types ++ (second_types ++ third_types)

-- ===== src/Layout/Sizes.antt =====
-- The expressions `sizeof` and `offsetof` in src/compiler.rs, whose values are constants of the compiled code.
use raytask.Prelude.{ℕ, Option, none, some, if◌then◌else◌}
use raytask.Prelude.Text.{Str, same_bytes}
use raytask.Value.{FfiStructLayout, FfiFields}
use raytask.Ast.{TypeRef}
use raytask.Layout.{Layouts, named, get_layout, primitive_size_align}

abbrev size_or_8 : Option (ℕ × ℕ) → ℕ
size_or_8 none = 8
size_or_8 (some (size, align)) = size

abbrev known_size_or : Option FfiStructLayout → ℕ → ℕ
known_size_or none size = size
known_size_or (some (FfiStructLayout.layout name size align packed places)) other = size

unfoldable pub size_of : Layouts → TypeRef → ℕ
size_of known ty =
    known_size_or (get_layout known (named ty)) (size_or_8 (primitive_size_align (named ty)))

-- 0 if there is no such field.
unfoldable pub find_offset : FfiFields → Str → ℕ
find_offset FfiFields.no_fields name = 0
find_offset (FfiFields.field n offset ffi rest) name =
    let later = find_offset rest name in if same_bytes n name then offset else later

abbrev offset_in : Option FfiStructLayout → Str → ℕ
offset_in none name = 0
offset_in (some (FfiStructLayout.layout n size align packed places)) name = find_offset places name

unfoldable pub offset_of : Layouts → TypeRef → Str → ℕ
offset_of known ty name = offset_in (get_layout known (named ty)) name

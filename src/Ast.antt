-- ===== src/Ast.antt =====
-- The parts of the syntax tree (src/ast.rs) that the modelled code reads. Positions in the source,
-- `volatile`, access and attributes are left out.
use raytask.Prelude.{ℕ, Bool, Option, List}
use raytask.Prelude.Text.{Str}

mutual
  pub data TypeRef : Type 0 where
    type_ref : (name : Str) (args : TypeRefs) (nullable is_array : Bool) (array_dims : ℕ) → TypeRef

  -- `Vec<TypeRef>`
  pub data TypeRefs : Type 0 where
    no_args : TypeRefs
    arg : TypeRef → TypeRefs → TypeRefs

pub record FieldDecl : Type 0 where
  pub is_static : Bool
  pub ty : Option TypeRef
  pub name : Str

-- A method, a constructor and the like are one case: a layout skips them.
pub data Member : Type 0 where
  field : FieldDecl → Member
  code : Member

pub record StructDecl : Type 0 where
  pub name : Str
  pub members : List Member
  pub packed : Bool
  pub align : Option ℕ

pub record UnionDecl : Type 0 where
  pub name : Str
  pub members : List Member
  pub packed : Bool
  pub align : Option ℕ

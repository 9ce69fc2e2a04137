-- ===== src/Select/Marks.antt =====
-- Question marks in the texts of homework_select outside of values and raw expressions: there are none.
use myhomework.Common.{
  ℕ, Bytes, text, bytes_eq, Lacks, count_byte, count_byte-append, count_byte_of_Lacks, ◌≡◌, refl,
  List, [], ◌∷◌, ◌++◌, All, length, length-append, arith, Bool, true, false, Bool-cases, inl, inr,
}
use myhomework.Common.Dict.{lookup}
use myhomework.Writer.Laws.{enclosed}
use myhomework.Select.Expression.{Column, Aggregate}
use myhomework.Select.Selector.{Field, Model}
use myhomework.Select.Texts.{
  alias_text, column_name, quoted, name_text, column_text, aggregate_text, op_text, table_text,
  commas,
}

-- The number of placeholders.
abbrev pub marks : Bytes → ℕ
marks s = count_byte b'?' s

-- No question mark stands in a name of the model.
pub record IsMarkFreeModel (md : Model) : Type 0 where
  pub table_name : Lacks b'?' md.table_name
  pub fields : All (λ entry. Lacks b'?' (entry.1.col_name)) md.field_map

abbrev pub IsMarkFreeColumn : Column → Type 0
IsMarkFreeColumn col = Lacks b'?' col.alias

abbrev pub IsMarkFreeAggregate : Aggregate → Type 0
IsMarkFreeAggregate a = Lacks b'?' a.fn × Lacks b'?' a.alias

pub marks-enclosed : (b : Bool) (s : Bytes) → marks (enclosed b s) ≡ marks s
unfolding count_byte
marks-enclosed true s = omega (arith, count_byte-append b'?' s (b')' ∷ []))
marks-enclosed false s = refl

pub marks-quoted : (s : Bytes) → Lacks b'?' s → marks (quoted s) ≡ 0
unfolding count_byte
marks-quoted s h = omega (arith, count_byte-append b'?' s (b'`' ∷ []), count_byte_of_Lacks b'?' s h)

lookup-Lacks :
    (name : Bytes) (entries : List (Bytes × Field))
    → All (λ entry. Lacks b'?' (entry.1.col_name)) entries
    → Lacks b'?' (column_name (lookup name entries))
unfolding lookup
lookup-Lacks name [] h = tt
lookup-Lacks name ((other_name, fd) ∷ entries) (h, hs) =
    elim (Bool-cases (bytes_eq other_name name)) [
      | inl e ↦ rw e h
      | inr e ↦ rw e (lookup-Lacks name entries hs)
    ]

pub marks-name_text :
    (md : Model) (name : Bytes) → IsMarkFreeModel md → marks (name_text md name) ≡ 0
marks-name_text md name h = marks-quoted _ (lookup-Lacks name md.field_map h.fields)

pub marks-alias_text : (alias : Bytes) → Lacks b'?' alias → marks (alias_text alias) ≡ 0
unfolding count_byte text
marks-alias_text alias h =
    ground (arith, count_byte-append b'?' alias (b'`' ∷ []), count_byte_of_Lacks b'?' alias h)

pub marks-column_text :
    (md : Model) (col : Column)
    → IsMarkFreeModel md
    → IsMarkFreeColumn col
    → marks (column_text md col) ≡ 0
marks-column_text md col hm h = omega (
  arith,
  count_byte-append b'?' (name_text md col.name) (alias_text col.alias),
  marks-name_text md col.name hm,
  marks-alias_text col.alias h,
)

pub marks-aggregate_text :
    (md : Model) (a : Aggregate)
    → IsMarkFreeModel md
    → IsMarkFreeAggregate a
    → marks (aggregate_text md a) ≡ 0
unfolding count_byte
marks-aggregate_text md a hm (hf, h) = omega (
  arith,
  count_byte-append b'?' a.fn (b'(' ∷ (name_text md a.arg ++ b')' ∷ alias_text a.alias)),
  count_byte-append b'?' (name_text md a.arg) (b')' ∷ alias_text a.alias),
  count_byte_of_Lacks b'?' a.fn hf,
  marks-name_text md a.arg hm,
  marks-alias_text a.alias h,
)

pub marks-op_text : (op : Bytes) → Lacks b'?' op → marks (op_text op) ≡ 0
unfolding count_byte
marks-op_text op h =
    ground (arith, count_byte-append b'?' op (b' ' ∷ []), count_byte_of_Lacks b'?' op h)

pub marks-table_text :
    (md : Model) (table : Bytes)
    → IsMarkFreeModel md
    → Lacks b'?' table
    → marks (table_text md table) ≡ 0
marks-table_text md table hm h = elim (Bool-cases (bytes_eq table [])) [
  | inl e ↦ rw e (marks-quoted md.table_name hm.table_name)
  | inr e ↦ rw e (count_byte_of_Lacks b'?' table h)
]

pub marks-commas {κ} :
    {A : Type κ} (item : A → Bytes) (P : A → Type 0)
    → ((a : A) → P a → marks (item a) ≡ 0)
    → (items : List A) → All P items
    → marks (commas item items) ≡ 0
unfolding count_byte
marks-commas item P h [] hs = refl
marks-commas item P h (a ∷ more) (ha, hs) = omega (
  arith,
  count_byte-append b'?' (item a) (commas item more),
  h a ha,
  marks-commas item P h more hs,
)

-- Texts and arguments side by side keep the balance.
module _ {ℓ} {V : Type ℓ} where
  pub balanced_append :
      (s t : Bytes) (vs ws : List V)
      → marks s ≡ length vs
      → marks t ≡ length ws
      → marks (s ++ t) ≡ length (vs ++ ws)
  balanced_append s t vs ws p q = omega (arith, count_byte-append b'?' s t, length-append vs ws)

  pub balanced_front :
      (s t : Bytes) (ws : List V) → marks s ≡ 0 → marks t ≡ length ws → marks (s ++ t) ≡ length ws
  balanced_front s t ws p q = omega (arith, count_byte-append b'?' s t)

  pub balanced_back :
      (s t : Bytes) (vs : List V) → marks s ≡ length vs → marks t ≡ 0 → marks (s ++ t) ≡ length vs
  balanced_back s t vs p q = omega (arith, count_byte-append b'?' s t)

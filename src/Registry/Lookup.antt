-- ===== src/Registry/Lookup.antt =====
-- What the registry finds.
use fsspec_data.Prelude.{
  ◌≡◌, refl, sym, ap, ◌∙◌, Bool-cases, inl, inr, true, false, some, [], ◌∷◌, if◌then◌else◌, arith,
}
use fsspec_data.Errors.{Externals, ok}
use fsspec_data.Format.{DataFormat, arrow, parquet, csv, json_lines, avro}
use fsspec_data.Registry.{
  CodecRegistry, format_eq, find, insert, register, lookup, BuiltIn, format_of, default_registry,
}

format_eq-to : (a b : DataFormat) → format_eq a b ≡ true → a ≡ b
format_eq-to a b h = ground arith

format_eq_self : (a : DataFormat) → format_eq a a ≡ true
format_eq_self a = ground arith

module _ {Codec : Type 0} where
  find-insert :
      (format other : DataFormat) (codec : Codec) (codecs : CodecRegistry Codec)
      → find other (insert format codec codecs)
        ≡ (if format_eq format other then some codec else find other codecs)
  unfolding insert
  find-insert format other codec [] = refl
  find-insert format other codec ((key, old) ∷ codecs) = elim (Bool-cases (format_eq key format)) [
    | inl e ↦
        rw (e, format_eq-to key format e)
          (elim (Bool-cases (format_eq format other)) [ inl f ↦ rw f refl | inr f ↦ rw f refl ])
    | inr e ↦ rw e (elim (Bool-cases (format_eq key other)) [
      | inl f ↦ rw (f, apart e f) refl
      | inr f ↦ rw f (find-insert format other codec codecs)
    ])
  ]
    where
      apart :
          format_eq key format ≡ false → format_eq key other ≡ true → format_eq format other ≡ false
      apart e f = elim (Bool-cases (format_eq format other)) [
        | inl g ↦
            let same : key ≡ format =
              format_eq-to key other f ∙ sym (format_eq-to format other g) in
            cc (e, ap (format_eq key) same, format_eq_self key)
        | inr g ↦ g
      ]

  -- After a codec is registered, `get` returns it for its format, in place of any before it, and returns
  -- what it did for every other format.
  pub lookup-register :
      {X : Externals} (format : Codec → DataFormat) (codec : Codec) (codecs : CodecRegistry Codec)
      (other : DataFormat)
      → lookup {X = X} other (register format codec codecs)
        ≡ (if format_eq (format codec) other then ok codec else lookup other codecs)
  unfolding lookup register
  lookup-register format codec codecs other =
      rw (lookup, register, find-insert (format codec) other codec codecs)
        (elim (Bool-cases (format_eq (format codec) other)) [
          | inl e ↦ rw e refl
          | inr e ↦ rw e refl
        ])

-- The default registry has a codec for every format, and the codec is of that format.
pub lookup-default_registry :
    {X : Externals} (format : DataFormat)
    → (codec : BuiltIn) × (lookup {X = X} format default_registry ≡ ok codec)
      × (format_of codec ≡ format)
unfolding lookup default_registry format_of
lookup-default_registry arrow = (_, refl, refl)
lookup-default_registry parquet = (_, refl, refl)
lookup-default_registry csv = (_, refl, refl)
lookup-default_registry json_lines = (_, refl, refl)
lookup-default_registry avro = (_, refl, refl)

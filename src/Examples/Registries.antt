-- ===== src/Examples/Registries.antt =====
-- The registry of codecs over the small model.
use fsspec_data.Prelude.{◌≡◌, []}
use fsspec_data.Errors.{ok}
use fsspec_data.Format.{csv}
use fsspec_data.Registry.{csv_codec, format_of, lookup, register}
use fsspec_data.Registry.Lookup.{lookup-register}
use fsspec_data.Examples.Toy.{externals}

lookup-register_example :
    lookup {X = externals} csv (register format_of csv_codec []) ≡ ok csv_codec
unfolding format_of
lookup-register_example = lookup-register format_of csv_codec [] csv

-- ===== src/Examples/Items.antt =====
-- Files, their stored objects and ranges of their bytes: src/domain/file, src/domain/storage and
-- src/common/utils/range-parser.ts.
use file_system_spike.Base.{◌≡◌, refl, some}
use file_system_spike.Base.Int.{pos}
use file_system_spike.Base.Text.{codes, is_white}
use file_system_spike.Files.StorageObject.{
  UtcDate, create_for_nas, extract_file_name_from_nas_object_key,
}
use file_system_spike.Files.StorageObject.Keys.{extract-build}
use file_system_spike.Files.RangeParser.{
  parse_range_header, after_prefix, includes_char, before_dash, after_dash, bounds, parse_int,
  digits_value, checked,
}
use file_system_spike.Files.RangeParser.Bounds.{InFile, parse_range_header-InFile}

abbrev created : UtcDate
created = record { year = 2025; month = 0; day = 7; hours = 9; minutes = 5; seconds = 30; time = 0 }

extract-build_example :
    extract_file_name_from_nas_object_key
      (create_for_nas "o" "f" created (codes "a__b.txt")).object_key
    ≡ codes "a__b.txt"
extract-build_example = extract-build "o" "f" created (codes "a__b.txt")

read_range :
    parse_range_header (some (codes "bytes=5-")) 8 ≡ some (record { start = 5; end = pos 7 })
unfolding parse_range_header after_prefix includes_char before_dash after_dash bounds parse_int
    digits_value checked is_white
read_range = refl

parse_range_header-InFile_example : InFile 8 (record { start = 5; end = pos 7 })
parse_range_header-InFile_example = parse_range_header-InFile (some (codes "bytes=5-")) 8 read_range

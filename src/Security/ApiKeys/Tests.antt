-- ===== src/Security/ApiKeys/Tests.antt =====
-- The theorems on keys at concrete texts, with a table of at most one row and a constant digest.
use lite_mcp.Base.{String, true, Option, none, some, [], ◌≡◌, ◌↔◌, refl, ◌&◌, eqb, not}
use lite_mcp.Base.Length.{len}
use lite_mcp.Base.Slices.{all_codes, take, all_codes-Lacks}
use lite_mcp.Base.Exec.{ok, err}
use lite_mcp.Security.ApiKeys.{
  KeyPlatform, KeyWorld, Row, unicode_encode_error, key_row, create, verify,
}
use lite_mcp.Security.ApiKeys.Format.{KeyLaws, AreDrawn, plaintext_of}
use lite_mcp.Security.ApiKeys.Shape.{IsKeyOf}
use lite_mcp.Security.ApiKeys.Verified.{IsStored, verify_iff}
use lite_mcp.Security.ApiKeys.Created.{create_then_verify, events_hide_payload}
use lite_mcp.Security.ApiKeys.Raises.{IsForeign, verify_raises}

abbrev digits : String
digits = "0123456789abcdef0123456789abcdef0123456789abcdef0123456789abcdef"

abbrev others : String
others = "f123456789abcdef0123456789abcdef0123456789abcdef0123456789abcdef"

abbrev sample_id : String
sample_id = "0123456789abcdef01234567"

abbrev one_row : KeyPlatform
one_row = record {
  isalnum = λ s. true;
  parses_hex = λ s. true;
  sha256 = λ s. digits;
  methods = record { replace = λ old new value. value; lower = λ s. s; sub = λ p new value. value };
  State = Option Row;
  insert = λ s row. some (some row);
  get_by_public_id = λ s i. some s;
}

abbrev one_row-laws : KeyLaws one_row
unfolding len all_codes
one_row-laws = record { len-sha256 = λ s. refl; hex-sha256 = λ s. refl; alnum-hex = λ s h a. refl }

abbrev drawn : AreDrawn sample_id digits
unfolding len all_codes
drawn = record { id_length = refl; id_hex = refl; payload_length = refl; payload_hex = refl }

abbrev drawn_other : AreDrawn sample_id others
unfolding len all_codes
drawn_other = record { id_length = refl; id_hex = refl; payload_length = refl; payload_hex = refl }

abbrev key : String
key = plaintext_of one_row one_row-laws sample_id digits drawn

abbrev empty : KeyWorld one_row
empty = record { table = none; events = [] }

verify_iff_example :
    (verify one_row none key ≡ ok true)
    ↔ ((public_id : String) × IsKeyOf one_row key public_id × IsStored one_row none key public_id)
verify_iff_example = verify_iff one_row none key

create_then_verify_example :
    ((create one_row sample_id digits "" "s" "n" empty).0
      ≡ ok (record { plaintext = key; secret = key; display_prefix = take 12 key }))
    × (verify one_row (create one_row sample_id digits "" "s" "n" empty).1.table key ≡ ok true)
create_then_verify_example =
    create_then_verify one_row one_row-laws sample_id digits drawn "" "s" "n" empty
      (some (key_row one_row "s" "n" sample_id key)) refl refl

events_hide_payload_example :
    (create one_row sample_id digits "" "s" "n" empty).1.events
    ≡ (create one_row sample_id others "" "s" "n" empty).1.events
events_hide_payload_example =
    events_hide_payload one_row one_row-laws sample_id digits others drawn drawn_other "" "s" "n"
      empty (some (key_row one_row "s" "n" sample_id key))
      (some (
        key_row one_row "s" "n" sample_id
          (plaintext_of one_row one_row-laws sample_id others drawn_other)))
      refl refl

abbrev foreign_id : String
foreign_id = "é123456789abcdef01234567"

abbrev foreign : IsForeign one_row foreign_id digits "01234567"
unfolding len all_codes
foreign = record {
  id_length = refl;
  alphanumeric = refl;
  one_piece = all_codes-Lacks (λ n. not (eqb n b'_')) b'_' foreign_id refl refl;
  foreign = refl;
  payload_length = refl;
  payload_hex = refl;
  tag_length = refl;
}

verify_raises_example :
    verify one_row none ("litemcp_" & foreign_id & "_" & digits & "01234567" & "A")
    ≡ err unicode_encode_error
verify_raises_example = verify_raises one_row foreign_id digits "01234567" foreign none

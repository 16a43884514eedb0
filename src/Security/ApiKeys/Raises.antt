-- ===== src/Security/ApiKeys/Raises.antt =====
-- Keys of which the check raises.
use lite_mcp.Base.{String, true, false, ◌≡◌, ◌∙◌, refl, ◌&◌, leb}
use lite_mcp.Base.Text.{Lacks}
use lite_mcp.Base.Length.{len}
use lite_mcp.Base.Slices.{all_codes, all_codes-append, starts_with-append}
use lite_mcp.Base.Exec.{err}
use lite_mcp.Security.ApiKeys.{
  KeyPlatform, is_ascii, hex_code, unicode_encode_error, integrity_tag, tagged, from_parts,
  public_id_from_secret, verify,
}
use lite_mcp.Security.ApiKeys.Format.{split-key, len-secret, marked, payload-secret}

-- The parts of a text in the format of a key with a tag, with a public id that is alphanumeric and not ASCII.
pub record IsForeign (k : KeyPlatform) (public_id payload tag : String) : Type 0 where
  pub id_length : len public_id ≡ 24
  pub alphanumeric : k.isalnum public_id ≡ true
  pub one_piece : Lacks b'_' public_id
  pub foreign : is_ascii public_id ≡ false
  pub payload_length : len payload ≡ 64
  pub payload_hex : all_codes hex_code payload ≡ true
  pub tag_length : len tag ≡ 8

module _ (k : KeyPlatform) (public_id payload tag : String)
    (f : IsForeign k public_id payload tag) where
  not_ascii : is_ascii (public_id & ":" & payload) ≡ false
  not_ascii = all_codes-append (λ n. leb n 127) public_id (":" & payload) ∙ rw f.foreign refl

  raises : from_parts k public_id (payload & tag & "A") ≡ err unicode_encode_error
  unfolding from_parts tagged integrity_tag
  raises =
      rw
        (
          f.alphanumeric,
          len-secret payload tag f.payload_length f.tag_length,
          marked payload tag f.payload_length f.tag_length,
          payload-secret payload tag f.payload_length f.tag_length,
          f.payload_hex,
          f.payload_length,
          not_ascii,
        )
        refl

  -- `verify` does not return for a presented text of the shape with a tag, that is with a payload of 64
  -- hexadecimal digits, eight characters for the tag and the marker, whose public id has 24 letters and
  -- digits of which one is not ASCII: it raises the error of `encode("ascii")`, whatever the table
  -- holds.
  pub verify_raises :
      (s : k.State)
      → verify k s ("litemcp_" & public_id & "_" & payload & tag & "A") ≡ err unicode_encode_error
  unfolding verify public_id_from_secret
  verify_raises s =
      rw
        (
          starts_with-append "litemcp_" (public_id & "_" & payload & tag & "A"),
          split-key public_id (payload & tag & "A") f.one_piece,
          f.id_length,
          raises,
        )
        refl

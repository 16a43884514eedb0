-- ===== src/Security/ApiKeys/Created.antt =====
-- What `create` stores, returns and reports.
use text.Mathlib.TextLemmas.{append_assoc}
use lite_mcp.Base.{
  String, true, some, List, [], ◌∷◌, ◌++◌, ◌≡◌, ◌∙◌, sym, ap, refl, ◌&◌, inr, arith, str_ne, lookup,
}
use lite_mcp.Base.Length.{len}
use lite_mcp.Base.Slices.{take, take-prefix, len-append}
use lite_mcp.Base.Exec.{ok}
use lite_mcp.Security.ApiKeys.{
  KeyPlatform, KeyWorld, key_row, verify, create, Event, logged_info, audited, redact_audit_payload,
}
use lite_mcp.Security.ApiKeys.Format.{
  KeyLaws, AreDrawn, plaintext_of, generate-eq-ok, public_id-generated, not_empty, hex_ascii,
}
use lite_mcp.Security.ApiKeys.Verified.{verify-of_parsed}

module _ (k : KeyPlatform) (laws : KeyLaws k) (public_id payload : String)
    (d : AreDrawn public_id payload) where
  abbrev plaintext : String
  plaintext = plaintext_of k laws public_id payload d

  display_prefix-plaintext : take 12 plaintext ≡ take 12 ("litemcp_" & public_id)
  display_prefix-plaintext =
      ap (take 12) (sym (append_assoc "litemcp_" public_id _))
      ∙ take-prefix 12 ("litemcp_" & public_id) _
          (unfold len in omega (arith, len-append "litemcp_" public_id, d.id_length))

  -- What the log and the audit are handed for a stored key.
  abbrev reported : String → String → List Event
  reported service_id name =
      let shown = take 12 ("litemcp_" & public_id) in
      let fields =
        ("action", "api_key.created")
        ∷ ("public_id", public_id)
        ∷ ("display_prefix", shown)
        ∷ ("service_id", service_id)
        ∷ ("name", name)
        ∷ [] in
      logged_info fields ∷ audited (redact_audit_payload k.methods fields) ∷ []

  events-created :
      (fresh service_id name : String) (w : KeyWorld k) (t : k.State)
      → k.insert w.table (key_row k service_id name public_id plaintext) ≡ some t
      → (create k public_id payload fresh service_id name w).1.events
        ≡ w.events ++ reported service_id name
  unfolding create
  events-created fresh service_id name w t e =
      rw
        (
          generate-eq-ok k laws public_id payload d,
          public_id-generated k laws public_id payload d,
          str_ne public_id "" (not_empty k laws public_id payload d),
          e,
          display_prefix-plaintext,
        )
        refl

  created-eq-ok :
      (fresh service_id name : String) (w : KeyWorld k) (t : k.State)
      → k.insert w.table (key_row k service_id name public_id plaintext) ≡ some t
      → ((create k public_id payload fresh service_id name w).0
          ≡ ok (record {
            plaintext = plaintext;
            secret = plaintext;
            display_prefix = take 12 plaintext;
          }))
        × ((create k public_id payload fresh service_id name w).1.table ≡ t)
  unfolding create
  created-eq-ok fresh service_id name w t e =
      rw
        (
          generate-eq-ok k laws public_id payload d,
          public_id-generated k laws public_id payload d,
          str_ne public_id "" (not_empty k laws public_id payload d),
          e,
        )
        (refl, refl)

  -- A key that was created is accepted: where the table takes the row and finds it under its public
  -- id, `create` returns the plaintext, and `verify` of it on the new table is true.
  pub create_then_verify :
      (fresh service_id name : String) (w : KeyWorld k) (t : k.State)
      → k.insert w.table (key_row k service_id name public_id plaintext) ≡ some t
      → k.get_by_public_id t public_id ≡ some (some (key_row k service_id name public_id plaintext))
      → ((create k public_id payload fresh service_id name w).0
          ≡ ok (record {
            plaintext = plaintext;
            secret = plaintext;
            display_prefix = take 12 plaintext;
          }))
        × (verify k (create k public_id payload fresh service_id name w).1.table plaintext
            ≡ ok true)
  unfolding lookup
  create_then_verify fresh service_id name w t e found =
      let (result, table) = created-eq-ok fresh service_id name w t e in
      (
        result,
        ap (λ s. verify k s plaintext) table
            ∙ verify-of_parsed k t plaintext public_id
                (public_id-generated k laws public_id payload d)
                (record {
                  row = key_row k service_id name public_id plaintext;
                  found = found;
                  filled = λ q. cc;
                  active = inr refl;
                  digest = refl;
                  size = laws.len-sha256 plaintext;
                  ascii = hex_ascii (k.sha256 plaintext) (laws.hex-sha256 plaintext);
                }),
      )

-- What the log and the audit are handed of a stored key says nothing of its secret part: two keys
-- with the same public id leave the same events, whatever their payloads are.
pub events_hide_payload :
    (k : KeyPlatform) (laws : KeyLaws k) (public_id payload payload' : String)
    (d : AreDrawn public_id payload) (d' : AreDrawn public_id payload')
    (fresh service_id name : String) (w : KeyWorld k) (t t' : k.State)
    → k.insert w.table
        (key_row k service_id name public_id (plaintext_of k laws public_id payload d))
      ≡ some t
    → k.insert w.table
        (key_row k service_id name public_id (plaintext_of k laws public_id payload' d'))
      ≡ some t'
    → (create k public_id payload fresh service_id name w).1.events
      ≡ (create k public_id payload' fresh service_id name w).1.events
events_hide_payload k laws public_id payload payload' d d' fresh service_id name w t t' e e' =
    events-created k laws public_id payload d fresh service_id name w t e
    ∙ sym (events-created k laws public_id payload' d' fresh service_id name w t' e')

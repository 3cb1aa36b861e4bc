-- ===== src/TargetRegistry/Tests.antt =====
-- A register on concrete inputs, and the theorems at it.
use discord_context_bridge.TargetRegistry.Register.{
  register-local, Says, register-resolves, Written,
}
use discord_context_bridge.TargetRegistry.{
  Registration, Resolved, add_aliases, register_target, safe_target_label, Entry, entry_of, absorb,
  resolve_target, absorb_all, matching, non_empty_aliases, is_news, append_entry,
}
use discord_context_bridge.Shared.{
  true, false, none, some, [], ◌∷◌, ok, strip, List, ◌≡◌, ◌++◌, refl,
}

program : Unit {0}
unfolding add_aliases absorb absorb_all matching resolve_target non_empty_aliases entry_of is_news
    append_entry register_target safe_target_label strip
program = tt

abbrev registration : Registration
registration = record {
  target_key = "k1";
  key_scheme = "url_hash_16";
  url = some "https://discord.com/channels/1/2";
  server_label = none;
  channel_label = some "general";
  aliases = "g" ∷ "" ∷ [];
  source = "capture";
  source_ref = none;
  now = "2026-01-01T00:00:00+00:00";
}

abbrev register : List Entry
register = entry_of registration ∷ []

first : register_target (λ e. true) registration [] ≡ ok (true, register)
unfolding program
first = refl

again : register_target (λ e. true) registration register ≡ ok (false, register)
unfolding program
again = refl

label : safe_target_label "k1" register ≡ "general"
unfolding program
label = refl

-- A url with a blank before it is registered again, since the text that is compared with the
-- stored one has lost the blank.
blank_again :
    register_target
      (λ e. true)
      (record registration { url = some " u" })
      (entry_of (record registration { url = some " u" }) ∷ [])
    ≡ ok (
      true,
      entry_of (record registration { url = some " u" })
          ∷ entry_of (record registration { url = some " u" })
          ∷ [],
    )
unfolding program
blank_again = refl

register-resolves_example :
    (r : Resolved) × (resolve_target "k1" register ≡ some r)
    × Says registration r
    × (true ≡ true → Written registration (resolve_target "k1" []) r)
    × (true ≡ false → register ≡ [])
register-resolves_example = register-resolves (λ e. true) registration [] first

register-local_example :
    ((more : List Entry) × (register ≡ [] ++ more))
    × (resolve_target "k2" register ≡ resolve_target "k2" [])
register-local_example = register-local (λ e. true) registration [] "k2" refl first

-- ===== src/Listener/SectionTests.antt =====
-- The window of block hashes with a node that answers, and its locked sections, at concrete inputs.
use identity_oracle.Prelude.{ℕ, ◌%◌, ◌≡◌, refl, some, [], ◌∷◌, inl, arith, ap, ◌∙◌}
use identity_oracle.Prelude.Equality.{nat_comparable}
use identity_oracle.Errors.{Outcome, ok, err, Text, got_want}
use identity_oracle.Errors.Inversion.{ok-injective}
use identity_oracle.Listener.{
  Header, Headers, Listener, recent_sig_hash, handle_headers, scan_headers, scan_header, find_hash,
  extend, finish, clean_hashes,
}
use identity_oracle.Listener.Reports.{IsHonest}
use identity_oracle.Listener.Bounds.{recent_sig_hash-available}
use identity_oracle.Listener.Limits.{IsModest, IsWithin, handle_headers-IsWithin}
use identity_oracle.Listener.Interleaving.{
  link_section, trim_section, Sections, at_rest, then_section, linked, trimmed,
  recent_sig_hash-Sections, recent_sig_hash-link_section,
}

-- The true height of a block is its number.
abbrev pub height : ℕ → ℕ
height n = n

abbrev header : ℕ → ℕ → Header ℕ
header prev hash = record { prev_block = prev; block_hash = hash }

abbrev reply : Headers ℕ
reply = record { start_height = 6; headers = header 5 6 ∷ header 6 7 ∷ [] }

abbrev node : ℕ → Outcome Text (Headers ℕ)
node n = ok reply

abbrev pub window : Listener ℕ
window = record { spy_node = some node; offset = 2; hashes = 4 ∷ 5 ∷ []; height = 5 }

abbrev stray : Headers ℕ
stray = record { start_height = 50; headers = header 49 50 ∷ [] }

recent_sig_hash-available_example :
    (l : Listener ℕ) × (handle_headers window stray ≡ ok l)
    × ((h : ℕ) × ((n : ℕ) × (recent_sig_hash l ≡ ok (h, n))))
recent_sig_hash-available_example =
    recent_sig_hash-available window stray 5 node reply refl (λ e. cc) refl refl refl (omega arith)

abbrev next_one : Headers ℕ
next_one = record { start_height = 6; headers = header 5 6 ∷ [] }

abbrev one_later : Listener ℕ
one_later = record window { hashes = 5 ∷ 6 ∷ []; height = 6 }

run_next : handle_headers window next_one ≡ ok one_later
unfolding handle_headers scan_headers scan_header find_hash extend finish clean_hashes
run_next = refl

-- A node that has no headers.
abbrev silent : ℕ → Outcome Text (Headers ℕ)
silent n = ok (record { start_height = 0; headers = [] })

abbrev alone : Listener ℕ
alone = record window { spy_node = some silent }

alone-IsModest : IsModest (some silent)
alone-IsModest = record {
  modest = λ g n r e q.
      let same : silent ≡ g = ground arith in
      let none_sent : record { start_height = 0; headers = [] } ≡ r =
        ok-injective (record { start_height = 0; headers = [] }) r
          (ap (λ (x : ℕ → Outcome Text (Headers ℕ)). x n) same ∙ q) in
      rw (← none_sent) (omega arith);
}

alone-IsHonest : IsHonest height (some silent)
alone-IsHonest = record {
  aligned = λ g n r e q.
      let same : silent ≡ g = ground arith in
      let none_sent : record { start_height = 0; headers = [] } ≡ r =
        ok-injective (record { start_height = 0; headers = [] }) r
          (ap (λ (x : ℕ → Outcome Text (Headers ℕ)). x n) same ∙ q) in
      rw (← none_sent) tt;
}

run_alone : handle_headers alone next_one ≡ ok (record one_later { spy_node = some silent })
unfolding handle_headers scan_headers scan_header find_hash extend finish clean_hashes
run_alone = refl

handle_headers-IsWithin_example : IsWithin (record one_later { spy_node = some silent })
handle_headers-IsWithin_example =
    handle_headers-IsWithin alone (record one_later { spy_node = some silent }) next_one
      alone-IsModest (record { is_short = omega arith; is_u32 = omega arith }) run_alone

abbrev pub too_long : Listener ℕ
too_long = link_section (header 5 6 ∷ []) 5 window

pub interleaved : Sections height window (trim_section too_long)
unfolding scan_headers scan_header extend
interleaved =
    then_section (then_section at_rest (linked (header 5 6 ∷ []) 5 refl (refl, tt) (inl refl, tt)))
      (trimmed refl)

report : recent_sig_hash (trim_section too_long) ≡ ok (5, 5)
unfolding recent_sig_hash scan_headers scan_header extend
report = refl

recent_sig_hash-Sections_example : 5 ≡ 5 % 4294967296
recent_sig_hash-Sections_example =
    recent_sig_hash-Sections height window (trim_section too_long) 5 5 (refl, (refl, tt))
      interleaved report

recent_sig_hash-link_section_example :
    recent_sig_hash (link_section (header 5 6 ∷ []) 5 window)
    ≡ err (got_want "bad header count" 3 2)
recent_sig_hash-link_section_example =
    recent_sig_hash-link_section window 5 (header 5 6) [] refl (omega arith) (refl, tt)

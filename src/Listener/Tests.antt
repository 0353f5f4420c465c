-- ===== src/Listener/Tests.antt =====
-- The window of block hashes at concrete inputs. A hash is the number of its block; the fork's
-- blocks are the heights plus 100.
use identity_oracle.Prelude.{
  ◌↔◌, ◌≢◌, ℕ, ◌-◌, ◌%◌, ◌≡◌, refl, none, inl, [], ◌∷◌, arith, if◌then◌else◌, ltb,
}
use identity_oracle.Prelude.Equality.{nat_comparable}
use identity_oracle.Errors.{ok, panic}
use identity_oracle.Listener.{
  add32, Header, Headers, Listener, new_listener, recent_sig_hash, handle_headers, scan_headers,
  scan_header, find_hash, extend, reorg, finish,
}
use identity_oracle.Listener.Reports.{IsHonest, recent_sig_hash-handle_headers}
use identity_oracle.Listener.Batches.{handle_headers-empty_window, handle_headers-chain}
use identity_oracle.Listener.Forks.{fork_reports_wrong_height}

abbrev true_height : ℕ → ℕ
true_height n = if ltb n 100 then n else n - 100

abbrev header : ℕ → ℕ → Header ℕ
header prev hash = record { prev_block = prev; block_hash = hash }

abbrev window : Listener ℕ
window = record { spy_node = none; offset = 5; hashes = 1 ∷ 2 ∷ 3 ∷ 4 ∷ 5 ∷ []; height = 5 }

abbrev next_two : Headers ℕ
next_two = record { start_height = 6; headers = header 5 6 ∷ header 6 7 ∷ [] }

-- Blocks 105 and 106 follow block 4.
abbrev fork : Headers ℕ
fork = record { start_height = 5; headers = header 4 105 ∷ header 105 106 ∷ [] }

abbrev stray : Headers ℕ
stray = record { start_height = 50; headers = header 49 50 ∷ [] }

abbrev window_after_two : Listener ℕ
window_after_two = record window { hashes = 3 ∷ 4 ∷ 5 ∷ 6 ∷ 7 ∷ []; height = 7 }

after_two : handle_headers window next_two ≡ ok window_after_two
unfolding handle_headers scan_headers scan_header find_hash extend reorg finish
after_two = refl

after_two_report : recent_sig_hash window_after_two ≡ ok (3, 3)
unfolding recent_sig_hash
after_two_report = refl

no_node : IsHonest {Hash = ℕ} true_height none
no_node = record { aligned = λ g n reply e. cc }

recent_sig_hash-handle_headers_example : 3 ≡ 3 % 4294967296
unfolding scan_header extend
recent_sig_hash-handle_headers_example =
    recent_sig_hash-handle_headers true_height window window_after_two next_two 5 3 3 no_node
      (omega arith) refl (omega arith) (inl refl, (inl refl, tt)) after_two after_two_report

handle_headers-empty_window_example :
    (handle_headers (new_listener {Hash = ℕ} none) next_two ≡ panic)
    ↔ (((new_listener {Hash = ℕ} none).hashes ≡ []) × (next_two.headers ≢ []))
unfolding new_listener
handle_headers-empty_window_example =
    handle_headers-empty_window (new_listener none) next_two (λ node e. cc)

handle_headers-chain_example : handle_headers window next_two ≡ ok window_after_two
unfolding add32
handle_headers-chain_example =
    handle_headers-chain window next_two 5 (omega arith) refl (cc) (refl, (refl, tt)) (omega arith)

fork_reports_wrong_height_example :
    (l' : Listener ℕ) × (handle_headers window fork ≡ ok l') × (recent_sig_hash l' ≡ ok (1, 2))
unfolding find_hash
fork_reports_wrong_height_example =
    fork_reports_wrong_height true_height window fork 1 5 (header 4 105) (header 105 106 ∷ []) 2
      (omega arith) refl refl refl refl (omega arith) refl (omega arith) (refl, tt) refl

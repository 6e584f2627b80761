-- ===== src/Paging/Tests.antt =====
-- Witnesses: two queued users, replayed in pages of one; the state counts the rebuilds.
use oecophylla.Paging.{union, replay_page, replay_user}
use oecophylla.Common.Sort.{sort, place}
use oecophylla.Common.Text.{str_le}
use oecophylla.Paging.{replay_pages, page_users}
use oecophylla.Common.{ℕ, ◌+◌, ◌≡◌, refl, String, true, some, [], ◌∷◌, ok, arith}
use oecophylla.Common.Eq.{string_eq}
use oecophylla.Common.Unique.{Unique}
use oecophylla.Paging.{Tables, Position, all_users, replay_all}
use oecophylla.Paging.Complete.{replay_all-eq, replay_all-counts}

abbrev two_users : Tables ℕ
two_users = record {
  queued = λ s. "b" ∷ "a" ∷ [];
  built = λ s. [];
  has_source = λ s u. true;
  rebuild = λ u s. ok (s + 1);
}

abbrev finished : Position ℕ
finished = record { cursor = some "b"; rebuilt = 2; state = 2 }

replay_all-eq_example :
    (replay_all two_users true 1 3 0 ≡ ok finished) × Unique {A = String} ("a" ∷ "b" ∷ [])
unfolding all_users union sort place str_le replay_page replay_user
replay_all-eq_example = replay_all-eq two_users true (λ u s t h. refl) 0 3 0 (omega arith)

returned : replay_all two_users true 1 3 0 ≡ ok finished
unfolding all_users union sort place str_le replay_page replay_user replay_all replay_pages
    page_users
returned = refl

replay_all-counts_example : Path ℕ finished.rebuilt 2
unfolding all_users union sort place str_le
replay_all-counts_example =
    replay_all-counts two_users true (λ u s t h. refl) 0 3 0 finished (omega arith) returned

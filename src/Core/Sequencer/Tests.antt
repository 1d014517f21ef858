-- ===== src/Core/Sequencer/Tests.antt =====
-- Numbers of the sample channels.
use hokora.Base.{◌≡◌, refl, true, false, none, some, [], ◌∷◌}
use hokora.Base.Keys.{number_key}
use hokora.Dict.{lookup, contains, insert}
use hokora.Db.Messages.{find_channel}
use hokora.Samples.{sample}
use hokora.Core.Sequencer.{
  SequenceManager, get_lock, load_from_db, get_cached_seq, next_seq, find_thread, next_thread_seq,
}

abbrev empty : SequenceManager
empty = record { cache = []; thread_cache = [] }

second_in_lobby : (next_seq empty sample 5).0 ≡ some 2
unfolding next_seq find_channel
second_in_lobby = refl

no_such_channel : (next_seq empty sample 4).0 ≡ none
unfolding next_seq find_channel
no_such_channel = refl

cached_after_load : get_cached_seq (load_from_db empty sample 5).1 5 ≡ 1
unfolding get_cached_seq load_from_db lookup find_channel insert
cached_after_load = refl

first_in_thread : (next_thread_seq empty sample 900 5 70).0 ≡ 1
unfolding next_thread_seq find_thread
first_in_thread = refl

new_lock : get_lock 3 ((4, true) ∷ []) ≡ (4, true) ∷ (3, false) ∷ []
unfolding get_lock contains insert
new_lock = refl

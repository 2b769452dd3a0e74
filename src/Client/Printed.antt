-- ===== src/Client/Printed.antt =====
-- `print_stats` of src/commands.rs on the statistics that a server of src/server.rs has.
use sccache.Prelude.{
  ℕ, Text, codes, List, [], ◌∷◌, ◌≡◌, refl, ap, ◌∙◌, sym, Option, none, some, Option-cases, inl,
  inr, length, All, ◌>>=◌, arith, suc, ◌+◌,
}
use sccache.Protocol.Statistic.{
  CacheStatistic, CacheStats, new_statistic, set_stats, set_name, set_str,
}
use sccache.Server.Service.{Service, insert_size, get_stats}
use sccache.Server.Stats.{ServerStats, set_duration_stat, to_cache_statistics}
use sccache.Client.Stats.{print_stats}
use sccache.Client.Columns.{print_stats-columns}

no_stats : {l : List CacheStatistic} → ◌≡◌ {A = Option (List CacheStatistic)} none (some l) → ⊥
no_stats h = cc

same_stats : {k l : List CacheStatistic} → some k ≡ some l → k ≡ l
same_stats h = cc

to_cache_statistics-length :
    (s : ServerStats) (l : List CacheStatistic) → to_cache_statistics s ≡ some l → length l ≡ 15
unfolding to_cache_statistics
to_cache_statistics-length s l h =
    elim (Option-cases
      (set_duration_stat s.cache_write_duration s.cache_writes (codes "Average cache write"))) [
        | inl e ↦ absurd (no_stats (rw (e, ◌>>=◌) at h))
        | inr (a, e) ↦
            elim (Option-cases (
              set_duration_stat s.cache_read_miss_duration s.cache_misses
                (codes "Average cache read miss"))) [
                  | inl e' ↦ absurd (no_stats (rw (e, ◌>>=◌, e') at h))
                  | inr (b, e') ↦
                      elim (Option-cases (
                        set_duration_stat s.cache_read_hit_duration s.cache_hits
                          (codes "Average cache read hit"))) [
                            | inl e'' ↦ absurd (no_stats (rw (e, ◌>>=◌, e', e'') at h))
                            | inr (c, e'') ↦
                                sym (ap length (same_stats (rw (e, ◌>>=◌, e', e'') at h)))
                          ]
                ]
      ]

nonempty :
    (n : ℕ) (l : List CacheStatistic)
    → length l ≡ suc n
    → (s : CacheStatistic) × (ss : List CacheStatistic) × (l ≡ s ∷ ss)
nonempty n [] h = absurd (omega (arith, h))
nonempty n (s ∷ ss) h = (s, ss, refl)

-- Whether a size is told.
abbrev pub told : Option ℕ → ℕ
told none = 0
told (some n) = 1

length-insert_size :
    (name : Text) (o : Option ℕ) (l : List CacheStatistic)
    → length (insert_size name o l) ≡ told o + length l
unfolding insert_size
length-insert_size name none l = omega arith
length-insert_size name (some n) l = omega arith

no_answer : {l : CacheStats} → ◌≡◌ {A = Option CacheStats} none (some l) → ⊥
no_answer h = cc

same_answer : {k l : CacheStats} → some k ≡ some l → k ≡ l
same_answer h = cc

get_stats-length :
    (s : Service) (stats : CacheStats)
    → get_stats s ≡ some stats
    → length stats.stats ≡ 16 + (told s.storage.current_size + told s.storage.max_size)
unfolding get_stats set_stats
get_stats-length s stats h = elim (Option-cases (to_cache_statistics s.stats)) [
  | inl e ↦ absurd (no_answer (rw (e, get_stats, ◌>>=◌) at h))
  | inr (l, e) ↦
      let location = set_str (set_name new_statistic (codes "Cache location")) s.storage.location in
      let sized = insert_size (codes "Cache size") s.storage.current_size (location ∷ l) in
      ap (λ x. length x.stats) (sym (same_answer (rw (e, get_stats, ◌>>=◌) at h)))
      ∙ omega (
        arith,
        length-insert_size (codes "Max cache size") s.storage.max_size sized,
        length-insert_size (codes "Cache size") s.storage.current_size (location ∷ l),
        to_cache_statistics-length s.stats l e,
      )
]

-- What a server answers to a request for its statistics, if its averages do not panic, is shown by
-- `print_stats` in lines that are equally long: fifteen of counters and averages, one of the
-- cache's location, and one for each of the two sizes that the storage knows.
pub print_stats-get_stats :
    (show_size : ℕ → Text) (s : Service) (stats : CacheStats)
    → get_stats s ≡ some stats
    → (lines : List Text) × (width : ℕ) × (print_stats show_size stats ≡ some lines)
      × (length lines ≡ 16 + (told s.storage.current_size + told s.storage.max_size))
      × All (λ l. length l ≡ width) lines
print_stats-get_stats show_size s stats h =
    let count = get_stats-length s stats h in
    let (first, others, e) =
      nonempty (15 + (told s.storage.current_size + told s.storage.max_size)) stats.stats
        (omega (arith, count)) in
    let (lines, width, shown, same, all) = print_stats-columns show_size stats first others e in
    (lines, width, shown, same ∙ count, all)

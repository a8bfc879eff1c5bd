-- ===== src/Tests/Selection.antt =====
-- Concrete providers and credentials for the selections of internal/provider.
use llm_mux_fork.Prelude.{
  ℕ, ◌+◌, ◌%◌, ◌<◌, ◌≡◌, ◌≢◌, refl, ℤ, pos, Bool, true, false, not, if◌then◌else◌, Option, some, [],
  ◌∷◌, List, Map, Text, txt, text_eq, lookup, lookup_or, is_empty, IsKeyed, keep, length, get_elem?,
  In, here, IsAscending, ◌↔◌, arith,
}
use llm_mux_fork.Tests.Sorting.{sort, sort-IsReordering, by_id-IsSort}
use llm_mux_fork.Tests.Samples.{now, sample_auth}
use llm_mux_fork.Clock.{minute, from_unix_nano}
use llm_mux_fork.Provider.Types.{Auth}
use llm_mux_fork.Provider.Stats.{sort_by_score, select_providers}
use llm_mux_fork.Provider.Ranking.{IsFalling, of_score, sort_by_score_lem, select_providers_lem}
use llm_mux_fork.Groups.Resolve.{Resolvers}
use llm_mux_fork.Sticky.Store.{empty_store}
use llm_mux_fork.Legacy.Blocked.{is_auth_blocked_for_model}
use llm_mux_fork.Legacy.Select as RoundRobin
use llm_mux_fork.Legacy.Select.{RoundRobinSelector, selected, verdict_on, by_id, cursor_of}
use llm_mux_fork.Legacy.Turns.{pick-selected}
use llm_mux_fork.Legacy.Rounds.{id_before, turn_order, after_picks, after_picks-selected}
use llm_mux_fork.Quota.State.{AuthQuotaState, Strategy, no_state}
use llm_mux_fork.Quota.Manager.{state_availability}
use llm_mux_fork.Quota.Select as ByScore
use llm_mux_fork.Quota.Select.{Scored, is_better, QuotaManager, cleanup}
use llm_mux_fork.Quota.Config.{ProviderQuotaConfig}
use llm_mux_fork.Quota.Chosen.{IsRandom}
use llm_mux_fork.Quota.Choice.{Starts, pick-Starts}
use llm_mux_fork.Quota.Open.{IsOpen}
use llm_mux_fork.Quota.Cleanup.{state_availability-cleanup}

-- Providers by score: b and c before a.
abbrev score_of : Text → ℕ
score_of p = if text_eq p (txt "a") then 1 else 2

abbrev abc : List Text
abc = txt "a" ∷ txt "b" ∷ txt "c" ∷ []

sort_by_score_lem_example :
    IsFalling score_of (sort_by_score score_of abc)
    × (of_score score_of 2 (sort_by_score score_of abc) ≡ of_score score_of 2 abc)
sort_by_score_lem_example = sort_by_score_lem score_of 2 abc

b_first : sort_by_score score_of abc ≡ txt "b" ∷ txt "c" ∷ txt "a" ∷ []
unfolding sort_by_score text_eq
b_first = refl

abbrev is_b : Text → Bool
is_b p = text_eq p (txt "b")

others_closed : keep (λ p. not (is_b p)) abc ≢ []
unfolding text_eq
others_closed e = cc

select_providers_lem_example :
    IsFalling score_of (select_providers is_b score_of abc)
    × (of_score score_of 2 (select_providers is_b score_of abc)
        ≡ of_score score_of 2 (keep (λ p. not (is_b p)) abc))
select_providers_lem_example = select_providers_lem score_of is_b 2 abc (omega arith) others_closed

abbrev auth_b : Auth
auth_b = record sample_auth { id = txt "b" }

abbrev auths : List Auth
auths = auth_b ∷ sample_auth ∷ []

abbrev no_resolvers : Resolvers
no_resolvers = record { by_provider = []; providers = [] }

abbrev selector : RoundRobinSelector
selector = record { cursors = []; sticky = empty_store }

b_unblocked : (verdict_on no_resolvers (txt "") now auth_b).blocked ≡ false
unfolding is_auth_blocked_for_model is_empty
b_unblocked = refl

pick-selected_example :
    (a : Auth) × ((RoundRobin.pick
        (λ lt. sort lt)
        no_resolvers
        now
        now
        (txt "gemini")
        (txt "")
        false
        auths
        selector).1
      ≡ selected a)
    × In a auths
    × ((verdict_on no_resolvers (txt "") now a).blocked ≡ false)
pick-selected_example =
    pick-selected (λ lt. sort lt) (sort-IsReordering by_id) no_resolvers now now (txt "gemini")
      (txt "") false auths selector auth_b here b_unblocked

-- After three forced picks from the start the cursor stands far below its limit.
cursor_start : cursor_of (RoundRobin.pick_key (txt "gemini") (txt "")) selector + 3 < 1_000_000_000
unfolding cursor_of lookup_or lookup
cursor_start = omega arith

after_picks-selected_example :
    (a : Auth) × ((RoundRobin.pick
        (λ lt. sort lt)
        no_resolvers
        now
        now
        (txt "gemini")
        (txt "")
        true
        auths
        (after_picks (λ lt. sort lt) no_resolvers now (txt "gemini") (txt "") auths 3 selector)).1
      ≡ selected a)
    × (get_elem? (turn_order (λ lt. sort lt) no_resolvers (txt "") now auths) (
          (cursor_of (RoundRobin.pick_key (txt "gemini") (txt "")) selector + 3)
          % length (turn_order (λ lt. sort lt) no_resolvers (txt "") now auths))
        ≡ some a)
    × IsAscending id_before (turn_order (λ lt. sort lt) no_resolvers (txt "") now auths)
    × (length (turn_order (λ lt. sort lt) no_resolvers (txt "") now auths)
        ≡ length (keep (λ c. not (verdict_on no_resolvers (txt "") now c).blocked) auths))
    × (In sample_auth (turn_order (λ lt. sort lt) no_resolvers (txt "") now auths) ↔ (
        In sample_auth auths
        × ((verdict_on no_resolvers (txt "") now sample_auth).blocked ≡ false)))
after_picks-selected_example =
    after_picks-selected (λ lt. sort lt) by_id-IsSort no_resolvers now (txt "gemini") (txt "") auths
      3 selector auth_b sample_auth here b_unblocked cursor_start

abbrev first_place : ℕ → ℕ
first_place n = 0

first_place-IsRandom : IsRandom first_place
first_place-IsRandom = record { below = λ n h. h }

abbrev busy_first : Strategy → Auth → Option AuthQuotaState → ProviderQuotaConfig → ℤ
busy_first strategy a state config = pos 0

abbrev manager : QuotaManager
manager = record { states = []; sticky = empty_store }

auth_b-IsOpen : IsOpen no_resolvers [] (txt "") now now auth_b
unfolding is_auth_blocked_for_model is_empty lookup
auth_b-IsOpen = record { on = refl; unblocked = refl; ready = refl }

pick-Starts_example :
    Starts
      (λ a. In a auths × IsOpen no_resolvers manager.states (txt "") now now a)
      (txt "b")
      manager.states
      (ByScore.pick
        (λ lt. sort lt)
        first_place
        busy_first
        no_resolvers
        now
        now
        (txt "claude")
        (txt "")
        false
        auths
        manager)
pick-Starts_example =
    pick-Starts (λ lt. sort lt) first_place busy_first (sort-IsReordering is_better)
      first_place-IsRandom no_resolvers now now (txt "claude") (txt "") (txt "b") false auths
      manager auth_b here auth_b-IsOpen

abbrev old_state : AuthQuotaState
old_state = record no_state { last_exhausted_at = pos 1 }

abbrev one_state : Map AuthQuotaState
one_state = (txt "a", old_state) ∷ []

one_state-IsKeyed : IsKeyed one_state
unfolding lookup
one_state-IsKeyed = (refl, tt)

old_there : lookup (txt "a") one_state ≡ some old_state
unfolding lookup text_eq
old_there = refl

old_removed : cleanup now one_state ≡ []
unfolding cleanup from_unix_nano
old_removed = refl

state_availability-cleanup_example :
    state_availability (now + minute) now (lookup (txt "a") (cleanup now one_state))
    ≡ state_availability (now + minute) now (lookup (txt "a") one_state)
state_availability-cleanup_example =
    state_availability-cleanup now (now + minute) now (txt "a") one_state old_state
      one_state-IsKeyed (omega arith) old_there refl

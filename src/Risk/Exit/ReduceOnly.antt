-- ===== src/Risk/Exit/ReduceOnly.antt =====
-- Proofs on `evaluate_exit` of risk/engine.py.
use claude_route.Base.{
  ℕ, ◌+◌, ◌≤◌, ◌<◌, ◌≡◌, ◌⊎◌, refl, subst, ap, ◌∙◌, String, true, false, Option, none, some, List,
  [], ◌∷◌, ◌++◌, arith,
}
use claude_route.Domain.Types.{Side}
use claude_route.Domain.Decisions.{RiskCheck, RiskDecision, ExitSignal}
use claude_route.Risk.Policy.{RiskPolicy}
use claude_route.Risk.Views.{ExitContext, MarketSnapshot}
use claude_route.Risk.Entry.{check, all_passed}
use claude_route.Risk.Entry.Safety.{all-append}
use claude_route.Risk.Exit.{
  exit_state_ok, held_shares, pending_shares, exit_checks, exit_decision, decide_exit,
  snapshot_checks, evaluate_exit,
}

-- What an allowed exit guarantees.
pub record IsReducing (p : RiskPolicy) (g : ExitSignal) (x : ExitContext) (d : RiskDecision)
    : Type 0 where
  pub sells : d.side ≡ Side.sell
  pub token : d.token_id ≡ g.token_id
  pub some_shares : 0 < d.max_shares
  pub held :
      d.max_shares + pending_shares g.token_id x.portfolio ≤ held_shares g.token_id x.portfolio
  pub no_unknown_order : x.health.unknown_orders ≡ 0
  pub state_ok : exit_state_ok p x ≡ true
  pub kill_switch : (x.kill_switch_engaged ≡ false) ⊎ (x.exit_allowed_in_kill_switch ≡ true)

exit_cleared :
    (p : RiskPolicy) (g : ExitSignal) (x : ExitContext)
    → all_passed (exit_checks p g x) ≡ true
    → (exit_state_ok p x ≡ true)
      × ((x.kill_switch_engaged ≡ false) ⊎ (x.exit_allowed_in_kill_switch ≡ true))
      × (x.health.unknown_orders ≡ 0)
      × (0 < g.shares)
      × (g.shares + pending_shares g.token_id x.portfolio ≤ held_shares g.token_id x.portfolio)
unfolding exit_checks
exit_cleared p g x h = ground arith

decision-IsReducing :
    (p : RiskPolicy) (now : ℕ) (id : String) (g : ExitSignal) (x : ExitContext)
    (ds : List RiskCheck)
    → all_passed (exit_checks p g x ++ ds) ≡ true
    → IsReducing p g x (exit_decision now id g (exit_checks p g x ++ ds))
decision-IsReducing p now id g x ds h =
    let (state, kill, known, positive, held) =
      exit_cleared p g x (ground (arith, h, all-append (exit_checks p g x) ds)) in
    record {
      sells = refl;
      token = refl;
      some_shares = rw h positive;
      held = rw h held;
      no_unknown_order = known;
      state_ok = state;
      kill_switch = kill;
    }

some_inj : {a b : RiskDecision} → ◌≡◌ {A = Option RiskDecision} (some a) (some b) → a ≡ b
some_inj k = cc

decide_exit-IsReducing :
    (p : RiskPolicy) (now : ℕ) (id : String) (g : ExitSignal) (x : ExitContext)
    (o : Option (List RiskCheck)) (d : RiskDecision)
    → decide_exit now id g (exit_checks p g x) o ≡ some d
    → d.allowed ≡ true
    → IsReducing p g x d
decide_exit-IsReducing p now id g x none d e h = cc
decide_exit-IsReducing p now id g x (some ds) d e h =
    subst (IsReducing p g x) (some_inj e)
      (decision-IsReducing p now id g x ds (ap (λ (r : RiskDecision). r.allowed) (some_inj e) ∙ h))

-- An exit that the risk engine allows sells some shares of the signal's token, and with what is
-- already being sold no more than are held; no order is in an unknown state, the bot's state and
-- the policy permit exits, and an engaged kill switch does so as well.
pub evaluate_exit-IsReducing :
    (p : RiskPolicy) (now : ℕ) (id : String) (g : ExitSignal) (s : Option MarketSnapshot)
    (x : ExitContext) (d : RiskDecision)
    → evaluate_exit p now id g s x ≡ some d
    → d.allowed ≡ true
    → IsReducing p g x d
unfolding evaluate_exit
evaluate_exit-IsReducing p now id g s x d e h =
    decide_exit-IsReducing p now id g x (snapshot_checks p g s) d e h

-- Without a snapshot of the market no exit is allowed: the decision is a refusal, of no shares.
pub evaluate_exit_blind :
    (p : RiskPolicy) (now : ℕ) (id : String) (g : ExitSignal) (x : ExitContext)
    → (d : RiskDecision) × (evaluate_exit p now id g none x ≡ some d)
      × (d.allowed ≡ false)
      × (d.max_shares ≡ 0)
unfolding evaluate_exit
evaluate_exit_blind p now id g x =
    let failed : all_passed (exit_checks p g x ++ check "snapshot_available" false ∷ []) ≡ false =
      ground (arith, all-append (exit_checks p g x) (check "snapshot_available" false ∷ [])) in
    (_, refl, failed, rw failed refl)

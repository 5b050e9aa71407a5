-- ===== src/Domain/Types.antt =====
-- The enums of src/polymarket_bot/domain/types.py. `same_*` is Python's `is` on their members.
use claude_route.Base.{ℕ, Bool, true, false, ◌==◌, ◌≡◌, arith}

pub data Side : Type 0 where
  buy sell : Side

pub data OrderType : Type 0 where
  gtc gtd fok fak : OrderType

pub data TradingMode : Type 0 where
  disabled paper replay live : TradingMode

pub data BotState : Type 0 where
  disabled initializing syncing paper live halted kill_switch dead : BotState

pub data OrderStatus : Type 0 where
  intent submitting live partially_filled filled cancelled rejected expired unknown : OrderStatus

pub data OrderPurpose : Type 0 where
  entry exit : OrderPurpose

abbrev pub side_index : Side → ℕ
side_index Side.buy = 0
side_index Side.sell = 1

abbrev pub same_side : Side → Side → Bool
same_side s t = side_index s == side_index t

abbrev pub state_index : BotState → ℕ
state_index BotState.disabled = 0
state_index BotState.initializing = 1
state_index BotState.syncing = 2
state_index BotState.paper = 3
state_index BotState.live = 4
state_index BotState.halted = 5
state_index BotState.kill_switch = 6
state_index BotState.dead = 7

abbrev pub same_state : BotState → BotState → Bool
same_state s t = state_index s == state_index t

abbrev pub status_index : OrderStatus → ℕ
status_index OrderStatus.intent = 0
status_index OrderStatus.submitting = 1
status_index OrderStatus.live = 2
status_index OrderStatus.partially_filled = 3
status_index OrderStatus.filled = 4
status_index OrderStatus.cancelled = 5
status_index OrderStatus.rejected = 6
status_index OrderStatus.expired = 7
status_index OrderStatus.unknown = 8

abbrev pub same_status : OrderStatus → OrderStatus → Bool
same_status s t = status_index s == status_index t

-- `OrderStatus.is_terminal`
abbrev pub is_terminal : OrderStatus → Bool
is_terminal OrderStatus.filled = true
is_terminal OrderStatus.cancelled = true
is_terminal OrderStatus.rejected = true
is_terminal OrderStatus.expired = true
is_terminal _ = false

-- `OrderStatus.is_open`
abbrev pub is_open : OrderStatus → Bool
is_open OrderStatus.intent = true
is_open OrderStatus.submitting = true
is_open OrderStatus.live = true
is_open OrderStatus.partially_filled = true
is_open OrderStatus.unknown = true
is_open _ = false

pub same_state-eq : (s t : BotState) → same_state s t ≡ true → s ≡ t
same_state-eq s t h = ground arith

-- ===== src/Host/EventLoop.antt =====
-- util/eventloop.{hh,cc}. Callbacks act on a world, which holds the descriptors; an interest only
-- reads it. No callback of the repository adds or cancels a rule.
use cs144_minnow.Base.{
  ℕ, suc, Bool, true, false, List, [], ◌∷◌, ◌++◌, leb, ◌==◌, if◌then◌else◌, length,
}
use cs144_minnow.Base.Outcome.{Outcome, ok, throws, ◌>>=◌}
use cs144_minnow.Host.Descriptor.{FdWrapper}

pub data Direction : Type 0 where
  reading writing : Direction

abbrev pub is_reading : Direction → Bool
is_reading reading = true
is_reading writing = false

abbrev pub is_writing : Direction → Bool
is_writing reading = false
is_writing writing = true

pub data Result : Type 0 where
  success timeout exit : Result

abbrev pub is_exit : Result → Bool
is_exit exit = true
is_exit r = false

abbrev pub Callback : Type 0 → Type 0
Callback W = W → Outcome W

abbrev pub Interest : Type 0 → Type 0
Interest W = W → Bool

-- handle tells a rule from the others, as its address does.
pub record BasicRule (W : Type 0) : Type 0 where
  pub handle : ℕ
  pub category_id : ℕ
  pub interest : Interest W
  pub callback : Callback W
  pub cancel_requested : Bool

-- fd finds the descriptor, which the rule shares.
pub record FdRule (W : Type 0) : Type 0 where
  pub base : BasicRule W
  pub fd : W → FdWrapper
  pub direction : Direction
  pub cancel : Callback W
  pub recover : W → Bool × W

-- capacity is what reserve got for the categories.
pub record EventLoop (W : Type 0) : Type 0 where
  pub rule_categories : List (List ℕ)
  pub capacity : ℕ
  pub next_handle : ℕ
  pub fd_rules : List (FdRule W)
  pub non_fd_rules : List (BasicRule W)

module _ {W : Type 0} where
  unfoldable pub init : ℕ → EventLoop W
  init capacity = record {
    rule_categories = [];
    capacity = capacity;
    next_handle = 0;
    fd_rules = [];
    non_fd_rules = [];
  }

  unfoldable pub add_category : List ℕ → EventLoop W → Outcome (ℕ × EventLoop W)
  add_category name l =
      if leb l.capacity (length l.rule_categories)
      then throws
      else ok (
        length l.rule_categories,
        record l { rule_categories = l.rule_categories ++ (name ∷ []) },
      )

  abbrev pub basic_rule : ℕ → ℕ → Callback W → Interest W → BasicRule W
  basic_rule handle category_id callback interest = record {
    handle = handle;
    category_id = category_id;
    interest = interest;
    callback = callback;
    cancel_requested = false;
  }

  -- add_rule with a descriptor; the handle is a RuleHandle.
  unfoldable pub add_fd_rule :
      ℕ
      → (W → FdWrapper)
      → Direction
      → Callback W
      → Interest W
      → Callback W
      → (W → Bool × W)
      → EventLoop W
      → Outcome (ℕ × EventLoop W)
  add_fd_rule category_id fd direction callback interest cancel recover l =
      let rule : FdRule W = record {
        base = basic_rule l.next_handle category_id callback interest;
        fd = fd;
        direction = direction;
        cancel = cancel;
        recover = recover;
      } in
      if leb (length l.rule_categories) category_id
      then throws
      else ok (
        l.next_handle,
        record l { next_handle = suc l.next_handle; fd_rules = l.fd_rules ++ (rule ∷ []) },
      )

  unfoldable pub add_rule : ℕ → Callback W → Interest W → EventLoop W → Outcome (ℕ × EventLoop W)
  add_rule category_id callback interest l =
      let rule = basic_rule l.next_handle category_id callback interest in
      if leb (length l.rule_categories) category_id
      then throws
      else ok (
        l.next_handle,
        record l { next_handle = suc l.next_handle; non_fd_rules = l.non_fd_rules ++ (rule ∷ []) },
      )

  -- The convenience function for a category and a rule.
  unfoldable pub add_named_rule :
      List ℕ
      → (W → FdWrapper)
      → Direction
      → Callback W
      → Interest W
      → Callback W
      → (W → Bool × W)
      → EventLoop W
      → Outcome (ℕ × EventLoop W)
  add_named_rule name fd direction callback interest cancel recover l =
      add_category name l >>= λ r. add_fd_rule r.0 fd direction callback interest cancel recover r.1

  abbrev pub request_cancel : ℕ → BasicRule W → BasicRule W
  request_cancel handle r = record r {
    cancel_requested = if r.handle == handle then true else r.cancel_requested;
  }

  unfoldable pub cancel_basic : ℕ → List (BasicRule W) → List (BasicRule W)
  cancel_basic handle [] = []
  cancel_basic handle (r ∷ rs) = request_cancel handle r ∷ cancel_basic handle rs

  unfoldable pub cancel_fd : ℕ → List (FdRule W) → List (FdRule W)
  cancel_fd handle [] = []
  cancel_fd handle (r ∷ rs) = record r { base = request_cancel handle r.base } ∷ cancel_fd handle rs

  -- RuleHandle::cancel; a handle of a rule that is gone finds none.
  unfoldable pub cancel : ℕ → EventLoop W → EventLoop W
  cancel handle l = record l {
    fd_rules = cancel_fd handle l.fd_rules;
    non_fd_rules = cancel_basic handle l.non_fd_rules;
  }

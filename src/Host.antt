-- ===== src/Host.antt =====
-- What a transaction reads of the world around it. The clock, `uuid4`, the authority callback
-- (`Engine.authority`) and the month of the clock are not this code's: they are parameters, one
-- reading of each for each transaction.
use agentic_works.Base.{ℕ, String, Bool, not, List, [], ◌∷◌, Check, forbidden, require, ◌>>◌}

pub record Host : Type 0 where
  -- `engine.clock()`
  pub now : ℕ
  -- `strftime('%Y-%m')` of the clock
  pub period : String
  -- `uuid.uuid4().hex`
  pub fresh : String
  -- `engine.authority(c, tenant, channel, actor, roles)` returns, and does not raise `Forbidden`
  pub authority : String → String → String → List String → Bool
  -- the row of p_freeze has `stopped` set
  pub frozen : String → Bool

abbrev pub staff : List String
staff = "owner" ∷ "operator" ∷ []

abbrev pub owners : List String
owners = "owner" ∷ []

-- `Engine.require_authority`
abbrev pub require_authority : Host → String → String → String → List String → Check
require_authority h tenant channel actor roles =
    require (h.authority tenant channel actor roles) forbidden

-- `Engine.require_active`
abbrev pub require_active : Host → String → Check
require_active h tenant = do
  require_authority h tenant "" "" staff
  require (not (h.frozen tenant)) forbidden

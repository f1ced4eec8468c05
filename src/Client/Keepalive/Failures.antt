-- ===== src/Client/Keepalive/Failures.antt =====
-- When the heartbeat of keepalive.rs gives up.
use nautilus_futu.Prelude.{
  zero, suc, ◌+◌, ◌<◌, ◌≡◌, ◌↔◌, refl, ap, ◌∙◌, List, [], ◌∷◌, ◌++◌, Result, ok, err, arith, length,
  ltb, false,
}
use nautilus_futu.Client.Connection.{ConnectionError}
use nautilus_futu.Client.Keepalive.{Heart, beating, stopped, start, beat, beats}

abbrev pub Beat : Type 0
Beat = Result ConnectionError (Unit {0})

-- Three failures stand one after another somewhere in the list.
pub record ThreeInARow (rs : List Beat) : Type 0 where
  pub before : List Beat
  pub after : List Beat
  pub first : ConnectionError
  pub second : ConnectionError
  pub third : ConnectionError
  pub split : rs ≡ before ++ (err first ∷ err second ∷ err third ∷ after)

later : (r : Beat) (rs : List Beat) → ThreeInARow rs → ThreeInARow (r ∷ rs)
later r rs t = record {
  before = r ∷ t.before;
  after = t.after;
  first = t.first;
  second = t.second;
  third = t.third;
  split = ap (λ l. r ∷ l) t.split;
}

now : (a b c : ConnectionError) (rs : List Beat) → ThreeInARow (err a ∷ err b ∷ err c ∷ rs)
now a b c rs = record { before = []; after = rs; first = a; second = b; third = c; split = refl }

beats-stopped : (rs : List Beat) → beats stopped rs ≡ stopped
unfolding beats beat
beats-stopped [] = refl
beats-stopped (r ∷ rs) = beats-stopped rs

-- Failures that are counted already, put back in front.
abbrev failing : List ConnectionError → List Beat → List Beat
failing [] rs = rs
failing (e ∷ es) rs = err e ∷ failing es rs

behind : (es : List ConnectionError) (rs : List Beat) → ThreeInARow rs → ThreeInARow (failing es rs)
behind [] rs t = t
behind (e ∷ es) rs t = later (err e) (failing es rs) (behind es rs t)

found :
    (es : List ConnectionError) (rs : List Beat)
    → length es < 3
    → beats (beating (length es)) rs ≡ stopped
    → ThreeInARow (failing es rs)
unfolding beats beat
found es [] h p = cc
found es (ok t ∷ rs) h p = behind es (ok t ∷ rs) (later (ok t) rs (found [] rs (omega arith) p))
found [] (err x ∷ rs) h p = found (x ∷ []) rs (omega arith) p
found (e ∷ []) (err x ∷ rs) h p = found (e ∷ x ∷ []) rs (omega arith) p
found (e ∷ f ∷ []) (err x ∷ rs) h p = now e f x rs
found (e ∷ f ∷ g ∷ es) (err x ∷ rs) h p = absurd (omega arith)

three_stop :
    (h : Heart) (a b c : ConnectionError) (rs : List Beat)
    → beats h (err a ∷ err b ∷ err c ∷ rs) ≡ stopped
unfolding beats beat
three_stop stopped a b c rs = beats-stopped rs
three_stop (beating zero) a b c rs = beats-stopped rs
three_stop (beating (suc zero)) a b c rs = beats-stopped rs
three_stop (beating (suc (suc n))) a b c rs =
    let over : ltb (suc (suc n) + 1) 3 ≡ false = ground arith in rw over (beats-stopped rs)

reached :
    (h : Heart) (before after : List Beat) (a b c : ConnectionError)
    → beats h (before ++ (err a ∷ err b ∷ err c ∷ after)) ≡ stopped
unfolding beats
reached h [] after a b c = three_stop h a b c after
reached h (r ∷ before) after a b c = reached (beat h r) before after a b c

-- From its start, the loop has stopped and sent the failure signal exactly when three beats in a
-- row have failed; any other number of failures, however many, leaves it beating.
pub beats-stopped_iff : (rs : List Beat) → (beats start rs ≡ stopped) ↔ ThreeInARow rs
beats-stopped_iff rs = (
  found [] rs (omega arith),
  λ t. ap (beats start) t.split ∙ reached start t.before t.after t.first t.second t.third,
)

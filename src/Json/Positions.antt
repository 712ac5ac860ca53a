-- ===== src/Json/Positions.antt =====
-- Items of an array by their positions.
use bsc_builder_proxyd.Base.{ℕ, zero, suc, ◌<◌, ◌≤◌, ◌≡◌, refl, some, none, arith}
use bsc_builder_proxyd.Json.{Json, Items, nil, cons, item_at, set_item, append_item, count_items}

pub item_at-set_item :
    (n : ℕ) (v w : Json) (p : Items) → item_at n p ≡ some v → item_at n (set_item n w p) ≡ some w
unfolding item_at set_item
item_at-set_item n v w nil h = absurd (cc)
item_at-set_item zero v w (cons x p) h = refl
item_at-set_item (suc n) v w (cons x p) h = item_at-set_item n v w p h

pub item_at_ge : (n : ℕ) (p : Items) → count_items p ≤ n → item_at n p ≡ none
unfolding item_at count_items
item_at_ge n nil h = refl
item_at_ge zero (cons x p) h = absurd (omega arith)
item_at_ge (suc n) (cons x p) h = item_at_ge n p (omega arith)

pub item_at_lt : (n : ℕ) (p : Items) → n < count_items p → (v : Json) × (item_at n p ≡ some v)
unfolding item_at count_items
item_at_lt n nil h = absurd (omega arith)
item_at_lt zero (cons x p) h = (x, refl)
item_at_lt (suc n) (cons x p) h = item_at_lt n p (omega arith)

pub item_at-append :
    (n : ℕ) (p : Items) (v : Json) → count_items p ≡ n → item_at n (append_item p v) ≡ some v
unfolding item_at count_items append_item
item_at-append zero nil v h = refl
item_at-append (suc n) nil v h = absurd (omega arith)
item_at-append zero (cons x p) v h = absurd (omega arith)
item_at-append (suc n) (cons x p) v h = item_at-append n p v (omega arith)

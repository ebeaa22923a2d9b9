-- ===== src/HzList.antt =====
-- hz::list of hzutils, the intrusive list that the allocators keep their pages in. The library is
-- a git submodule, so its operations are a parameter: the record says what the kernel relies on.
use crescent.Common.{
  ℕ, ◌+◌, ◌≡◌, refl, arith, List, [], ◌∷◌, true, Option, none, some, ◌==◌, if◌then◌else◌, sum_by,
  mem,
}

-- A list is the sequence of its elements as `front()` and `hook.next` visit them. At which end
-- `push` adds and `pop` takes is not said: only that no element appears or goes otherwise. A sum
-- over the elements, for every weight, says so.
pub record HzList : Type 0 where
  pub push : ℕ → List ℕ → List ℕ
  pub pop : List ℕ → Option (ℕ × List ℕ)
  pub remove : ℕ → List ℕ → List ℕ
  pub sum-push : (w : ℕ → ℕ) (x : ℕ) (l : List ℕ) → sum_by w (push x l) ≡ w x + sum_by w l
  pub pop_none : (l : List ℕ) → pop l ≡ none → l ≡ []
  pub pop_some :
      (l : List ℕ) (x : ℕ) (r : List ℕ)
      → pop l ≡ some (x, r)
      → (w : ℕ → ℕ) → sum_by w l ≡ w x + sum_by w r
  pub sum-remove :
      (w : ℕ → ℕ) (x : ℕ) (l : List ℕ) → mem x l ≡ true → sum_by w l ≡ w x + sum_by w (remove x l)

erase : ℕ → List ℕ → List ℕ
erase d [] = []
erase d (x ∷ xs) = if x == d then xs else x ∷ erase d xs

push_back : ℕ → List ℕ → List ℕ
push_back x [] = x ∷ []
push_back x (y ∷ l) = y ∷ push_back x l

pop_front : List ℕ → Option (ℕ × List ℕ)
pop_front [] = none
pop_front (x ∷ l) = some (x, l)

sum-push_back : (w : ℕ → ℕ) (x : ℕ) (l : List ℕ) → sum_by w (push_back x l) ≡ w x + sum_by w l
unfolding push_back
sum-push_back w x [] = refl
sum-push_back w x (y ∷ l) = omega (arith, sum-push_back w x l)

pop_front_none : (l : List ℕ) → pop_front l ≡ none → l ≡ []
unfolding pop_front
pop_front_none [] e = refl
pop_front_none (x ∷ l) e = cc

pop_front_some :
    (l : List ℕ) (x : ℕ) (r : List ℕ)
    → pop_front l ≡ some (x, r)
    → (w : ℕ → ℕ) → sum_by w l ≡ w x + sum_by w r
unfolding pop_front
pop_front_some [] x r e w = cc
pop_front_some (y ∷ l) x r e w = ground arith

sum-erase :
    (w : ℕ → ℕ) (x : ℕ) (l : List ℕ) → mem x l ≡ true → sum_by w l ≡ w x + sum_by w (erase x l)
unfolding erase
sum-erase w x [] m = cc
sum-erase w x (y ∷ l) m = ground (arith, sum-erase w x l)

-- A list that meets the assumptions: `push` adds at the end, and `pop` takes from the front.
unfoldable pub fifo : HzList
unfolding push_back pop_front erase sum-push_back pop_front_none pop_front_some sum-erase
fifo = record {
  push = push_back;
  pop = pop_front;
  remove = erase;
  sum-push = sum-push_back;
  pop_none = pop_front_none;
  pop_some = pop_front_some;
  sum-remove = sum-erase;
}

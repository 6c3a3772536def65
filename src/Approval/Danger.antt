-- ===== src/Approval/Danger.antt =====
-- internal/approval/policy.go and service.go: the commands that ask a human, by the four regular
-- expressions read as matchers over bytes (`\s` is one of "\t\n\f\r ", `.` any byte but '\n').
use go_tiny_claw.Base.{
  ℕ, Bool, true, false, ◌&&◌, ◌||◌, not, List, [], ◌∷◌, ◌++◌, Option, none, some, if◌then◌else◌,
  ◌==◌, Text, codes, ◌≟◌, text_eq, ◌≡◌, ◌↔◌, refl, arith, any, CtxErr, list_beq,
}
use go_tiny_claw.Approval.{Request, Denial, context_done, unavailable}
use go_tiny_claw.Channel.{Route}

-- `\s` in a Go regular expression.
abbrev pub is_re_space : ℕ → Bool
is_re_space b = (b == 32) || (b == 9) || (b == 10) || (b == 12) || (b == 13)

-- `p` holds of some suffix, as an unanchored match looks for it.
unfoldable pub somewhere : (Text → Bool) → Text → Bool
somewhere p [] = p []
somewhere p (b ∷ bs) = p (b ∷ bs) || somewhere p bs

unfoldable pub starts_with : Text → Text → Bool
starts_with [] s = true
starts_with (a ∷ as') [] = false
starts_with (a ∷ as') (b ∷ bs) = (a == b) && starts_with as' bs

-- `\s+` and then a text that starts with the word.
unfoldable pub spaces_then : Text → Text → Bool
spaces_then word [] = false
spaces_then word (b ∷ bs) = is_re_space b && (starts_with word bs || spaces_then word bs)

-- The word, and then `p`.
unfoldable pub word_then : Text → (Text → Bool) → Text → Bool
word_then [] p s = p s
word_then (a ∷ as') p [] = false
word_then (a ∷ as') p (b ∷ bs) = (a == b) && word_then as' p bs

-- `.*\.go`
unfoldable pub line_has_go : Text → Bool
line_has_go [] = false
line_has_go (b ∷ bs) = starts_with (codes ".go") (b ∷ bs) || (not (b == 10) && line_has_go bs)

-- `rm\s+-r`, `sudo\s+`, `drop\s+` and `>.*\.go`.
unfoldable pub dangerous_patterns : List (Text → Bool)
dangerous_patterns =
    word_then (codes "rm") (spaces_then (codes "-r"))
    ∷ word_then (codes "sudo") (spaces_then [])
    ∷ word_then (codes "drop") (spaces_then [])
    ∷ word_then (codes ">") line_has_go
    ∷ []

-- `IsDangerousCommand`
unfoldable pub is_dangerous_command : Text → Text → Bool
unfolding dangerous_patterns
is_dangerous_command tool_name args =
    if not (tool_name ≟ codes "bash") then false else any (λ p. somewhere p args) dangerous_patterns

-- `approval.Service`: the session and the route to which requests go.
pub record Service : Type 0 where
  pub session_id : Text
  pub route : Route

-- A `Check`ed call is allowed at once, denied at once, or becomes a request to wait for.
pub data Check : Type 0 where
  allowed : Check
  denied : Denial → Check
  waits : Request → Check

check_service : Option Service → Text → Text → Text → Check
check_service none id name args = denied unavailable
check_service (some s) id name args = waits (record {
  session_id = s.session_id;
  route = s.route;
  task_id = id;
  tool_name = name;
  args = args;
})

check_live : Option Service → Text → Text → Text → Check
unfolding check_service
check_live s id name args =
    if not (is_dangerous_command name args) then allowed else check_service s id name args

-- `Service.Check` of a tool call, up to the wait; `none` for a nil service.
unfoldable pub check : Option CtxErr → Option Service → Text → Text → Text → Check
unfolding check_live
check (some e) s id name args = denied (context_done e)
check none s id name args = check_live s id name args

-- A matcher that keeps matching when text follows.
abbrev Extends : (Text → Bool) → Type 0
Extends p = (s t : Text) → p s ≡ true → p (s ++ t) ≡ true

starts_with-Extends : (w : Text) → Extends (starts_with w)
unfolding starts_with
starts_with-Extends [] s t h = refl
starts_with-Extends (a ∷ w) [] t h = ground arith
starts_with-Extends (a ∷ w) (b ∷ s) t h = ground (arith, starts_with-Extends w s t)

spaces_then-Extends : (w : Text) → Extends (spaces_then w)
unfolding spaces_then
spaces_then-Extends w [] t h = ground arith
spaces_then-Extends w (b ∷ s) t h =
    ground (arith, starts_with-Extends w s t, spaces_then-Extends w s t)

word_then-Extends : (w : Text) (p : Text → Bool) → Extends p → Extends (word_then w p)
unfolding word_then
word_then-Extends [] p x s t h = x s t h
word_then-Extends (a ∷ w) p x [] t h = ground arith
word_then-Extends (a ∷ w) p x (b ∷ s) t h = ground (arith, word_then-Extends w p x s t)

line_has_go-Extends : Extends line_has_go
unfolding line_has_go
line_has_go-Extends [] t h = ground arith
line_has_go-Extends (b ∷ s) t h =
    ground (arith, starts_with-Extends (codes ".go") (b ∷ s) t, line_has_go-Extends s t)

somewhere-Extends : (p : Text → Bool) → Extends p → Extends (somewhere p)
unfolding somewhere
somewhere-Extends p x [] [] h = h
somewhere-Extends p x [] (c ∷ t) h = ground (arith, x [] (c ∷ t))
somewhere-Extends p x (b ∷ s) t h = ground (arith, x (b ∷ s) t, somewhere-Extends p x s t)

somewhere-prefix :
    (p : Text → Bool) (s t : Text) → somewhere p t ≡ true → somewhere p (s ++ t) ≡ true
unfolding somewhere
somewhere-prefix p [] t h = h
somewhere-prefix p (b ∷ s) t h = ground (arith, somewhere-prefix p s t)

framed :
    (p : Text → Bool) (s l r : Text)
    → Extends p
    → somewhere p s ≡ true
    → somewhere p (l ++ (s ++ r)) ≡ true
framed p s l r x h = somewhere-prefix p l (s ++ r) (somewhere-Extends p x s r h)

-- A bash command that needs an approval still needs it with any text before and after it: nothing
-- that is written around a dangerous part hides it.
pub is_dangerous_command_framed :
    (s l r : Text)
    → is_dangerous_command (codes "bash") s ≡ true
    → is_dangerous_command (codes "bash") (l ++ (s ++ r)) ≡ true
unfolding is_dangerous_command list_beq
is_dangerous_command_framed s l r h =
    let rm = word_then (codes "rm") (spaces_then (codes "-r")) in
    let sudo = word_then (codes "sudo") (spaces_then []) in
    let drop = word_then (codes "drop") (spaces_then []) in
    let to_go = word_then (codes ">") line_has_go in
    ground (
      arith,
      framed rm s l r (word_then-Extends (codes "rm") _ (spaces_then-Extends (codes "-r"))),
      framed sudo s l r (word_then-Extends (codes "sudo") _ (spaces_then-Extends [])),
      framed drop s l r (word_then-Extends (codes "drop") _ (spaces_then-Extends [])),
      framed to_go s l r (word_then-Extends (codes ">") _ line_has_go-Extends),
    )

-- A tool call passes without a human exactly when its context is alive and it is no dangerous bash
-- command; it is handed to `Wait` under its own ID and the service's session and route, exactly
-- when it is dangerous, its context alive and the service there.
pub check_exactly :
    (c : Option CtxErr) (s : Option Service) (id name args : Text) (req : Request)
    → ((check c s id name args ≡ allowed) ↔ ((c ≡ none) × (is_dangerous_command name args ≡ false)))
      × ((check c s id name args ≡ waits req) ↔ (
          (c ≡ none)
          × (is_dangerous_command name args ≡ true)
          × ((v : Service) × (s ≡ some v)
              × (req ≡ record {
                session_id = v.session_id;
                route = v.route;
                task_id = id;
                tool_name = name;
                args = args;
              }))))
unfolding check
check_exactly c none id name args req = ground arith
check_exactly c (some v) id name args req = (
  ground arith,
  (
    λ h. (ground arith, ground arith, (v, refl, ground arith)),
    λ (live, dangerous, (w, same, e)). ground arith,
  ),
)

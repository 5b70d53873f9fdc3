-- ===== src/Database/Logs/Placeholders.antt =====
-- The conditions of QueryLogs and their arguments (internal/store/logs.go).
use dns_filter.Prelude.{
  ℕ, ◌+◌, ◌≡◌, refl, ap, sym, ◌∙◌, List, [], ◌∷◌, ◌++◌, map, map-append, Text, codes, is_empty,
  arith, length, length-append, append-nil, if◌then◌else◌,
}
use dns_filter.Web.Page.{show}
use dns_filter.Api.Requests.{LogFilter}
use dns_filter.Database.Logs.{
  Arg, text, int, Conditions, numbered, add_condition, join_and, conditions_of, count_query,
  page_query,
}

-- a condition: the text before and after its placeholder, and its argument
pub record Condition : Type 0 where
  pub before : Text
  pub after : Text
  pub arg : Text

abbrev pub when_given : Text → Condition → List Condition
when_given value c = if is_empty value then [] else c ∷ []

abbrev condition : Text → Text → Text → Condition
condition before after arg = record { before = before; after = after; arg = arg }

-- the conditions that a filter asks for
unfoldable pub asked_for : LogFilter → List Condition
asked_for f =
    when_given f.client_ip (condition (codes "client_ip = $") (codes "::inet") f.client_ip)
    ++ when_given f.domain
        (condition (codes "domain ILIKE $") [] (codes "%" ++ (f.domain ++ codes "%")))
    ++ when_given f.action (condition (codes "action = $") [] f.action)
    ++ when_given f.date_from
        (condition (codes "queried_at >= $") (codes "::timestamptz") f.date_from)
    ++ when_given f.date_to (condition (codes "queried_at <= $") (codes "::timestamptz") f.date_to)

-- the conditions with their placeholders numbered from `n` on
abbrev pub number_from : ℕ → List Condition → List Text
number_from n [] = []
number_from n (c ∷ cs) = numbered c.before c.after n ∷ number_from (n + 1) cs

abbrev pub arg_of : Condition → Arg
arg_of c = text c.arg

abbrev pub conditions_from : List Condition → Conditions
conditions_from cs = record {
  conditions = codes "1=1" ∷ number_from 1 cs;
  args = map arg_of cs;
  arg_n = length cs + 1;
}

length-map : {A B : Type 0} (f : A → B) (xs : List A) → length (map f xs) ≡ length xs
length-map f [] = refl
length-map f (x ∷ xs) = omega (arith, length-map f xs)

number_from-append :
    (n : ℕ) (cs : List Condition) (c : Condition)
    → number_from n (cs ++ (c ∷ []))
      ≡ number_from n cs ++ (numbered c.before c.after (length cs + n) ∷ [])
number_from-append n [] c = ap (λ k. numbered c.before c.after k ∷ []) (omega arith)
number_from-append n (x ∷ cs) c =
    let e : length cs + (n + 1) ≡ length (x ∷ cs) + n = omega arith in
    ap (◌∷◌ (numbered x.before x.after n)) (rw e at (number_from-append (n + 1) cs c))

conditions_from-append :
    (cs : List Condition) (c : Condition)
    → add_condition (b'x' ∷ []) c.before c.after c.arg (conditions_from cs)
      ≡ conditions_from (cs ++ (c ∷ []))
unfolding add_condition
conditions_from-append cs c =
    let n : length (cs ++ (c ∷ [])) ≡ length cs + 1 =
      rw (length-append cs (c ∷ [])) (omega arith) in
    rw (number_from-append 1 cs c, map-append arg_of cs (c ∷ []), n) refl

add_condition-conditions_from :
    (value : Text) (c : Condition) (cs : List Condition)
    → add_condition value c.before c.after c.arg (conditions_from cs)
      ≡ conditions_from (cs ++ when_given value c)
unfolding add_condition
add_condition-conditions_from [] c cs = rw (append-nil cs) refl
add_condition-conditions_from (v ∷ value) c cs = conditions_from-append cs c

then_asked_for :
    (value : Text) (c : Condition) (cs : List Condition) (built : Conditions)
    → built ≡ conditions_from cs
    → add_condition value c.before c.after c.arg built ≡ conditions_from (cs ++ when_given value c)
then_asked_for value c cs built e =
    ap (add_condition value c.before c.after c.arg) e ∙ add_condition-conditions_from value c cs

conditions_of-asked_for : (f : LogFilter) → conditions_of f ≡ conditions_from (asked_for f)
unfolding conditions_of asked_for
conditions_of-asked_for f =
    then_asked_for f.date_to (condition (codes "queried_at <= $") (codes "::timestamptz") f.date_to)
      _ _
      (then_asked_for f.date_from
        (condition (codes "queried_at >= $") (codes "::timestamptz") f.date_from) _ _
        (then_asked_for f.action (condition (codes "action = $") [] f.action) _ _ (
          then_asked_for f.domain
            (condition (codes "domain ILIKE $") [] (codes "%" ++ (f.domain ++ codes "%"))) _ _
            (then_asked_for f.client_ip
              (condition (codes "client_ip = $") (codes "::inet") f.client_ip) [] _ refl))))

-- the conditions from the number `n` on, each after an AND
abbrev pub and_each : ℕ → List Condition → Text
and_each n [] = []
and_each n (c ∷ cs) = codes " AND " ++ (numbered c.before c.after n ++ and_each (n + 1) cs)

abbrev pub where_text : List Condition → Text
where_text cs = codes "1=1" ++ and_each 1 cs

abbrev pub page_columns : Text
page_columns =
    codes
      "SELECT queried_at, client_ip::text, user_id, group_id, domain, query_type, action, response_ms, COALESCE(upstream, '') FROM dns_query_logs WHERE "

join_and-and_each :
    (first : Text) (n : ℕ) (cs : List Condition)
    → join_and (first ∷ number_from n cs) ≡ first ++ and_each n cs
unfolding join_and
join_and-and_each first n [] = sym (append-nil first)
join_and-and_each first n (c ∷ cs) =
    ap (λ t. first ++ (codes " AND " ++ t))
      (join_and-and_each (numbered c.before c.after n) (n + 1) cs)

-- The texts of the count and of the page of QueryLogs hold `1=1` and, each after an AND, the
-- conditions that the filter asks for, with the placeholders numbered from 1 on; the arguments of
-- the count are those of the conditions in the same order; the page, newest first, has the limit and
-- the offset after them, at the two numbers that follow.
pub conditions_of-numbered :
    (f : LogFilter)
    → let cs = asked_for f in
      ((count_query f).sql ≡ codes "SELECT COUNT(*) FROM dns_query_logs WHERE " ++ where_text cs)
      × ((page_query f).sql
          ≡ page_columns
            ++ (where_text cs
                ++ (numbered
                      (codes " ORDER BY queried_at DESC LIMIT $")
                      (codes " OFFSET $")
                      (length cs + 1)
                    ++ show (length cs + 2))))
      × ((count_query f).args ≡ map arg_of cs)
      × ((page_query f).args ≡ map arg_of cs ++ (int f.limit ∷ int f.offset ∷ []))
      × ((conditions_of f).conditions ≡ codes "1=1" ∷ number_from 1 cs)
      × ((conditions_of f).arg_n ≡ length (count_query f).args + 1)
unfolding count_query page_query
conditions_of-numbered f =
    let cs = asked_for f in
    let next : (length cs + 1) + 1 ≡ length cs + 2 = omega arith in
    rw (conditions_of-asked_for f, join_and-and_each (codes "1=1") 1 cs, next)
      (refl, refl, refl, refl, refl, ap (λ n. n + 1) (sym (length-map arg_of cs)))

-- the texts of a condition, without its argument
abbrev texts : Condition → Text × Text
texts c = (c.before, c.after)

number_from-texts :
    (n : ℕ) (cs ds : List Condition)
    → map texts cs ≡ map texts ds
    → number_from n cs ≡ number_from n ds
number_from-texts n [] [] e = refl
number_from-texts n [] (d ∷ ds) e = cc
number_from-texts n (c ∷ cs) [] e = cc
number_from-texts n (c ∷ cs) (d ∷ ds) e =
    let head : texts c ≡ texts d = cc in
    let later = number_from-texts (n + 1) cs ds (cc) in
    rw (ap (λ p. p.0) head, ap (λ p. p.1) head, later) refl

texts-when_given :
    (value : Text) (c : Condition)
    → map texts (when_given value c) ≡ (if is_empty value then [] else texts c ∷ [])
texts-when_given [] c = refl
texts-when_given (v ∷ value) c = refl

-- two filters that give the same fields, whatever their values
pub record SameFields (f g : LogFilter) : Type 0 where
  pub client_ip : is_empty f.client_ip ≡ is_empty g.client_ip
  pub domain : is_empty f.domain ≡ is_empty g.domain
  pub action : is_empty f.action ≡ is_empty g.action
  pub date_from : is_empty f.date_from ≡ is_empty g.date_from
  pub date_to : is_empty f.date_to ≡ is_empty g.date_to

texts-asked_for :
    (f g : LogFilter) → SameFields f g → map texts (asked_for f) ≡ map texts (asked_for g)
unfolding asked_for
texts-asked_for f g same = simp (
  map-append, texts-when_given, same.client_ip, same.domain, same.action, same.date_from,
  same.date_to,
)

-- No value of a filter gets into the text of a query: where the same fields are given, the texts of
-- the count and of the page are the same for all values, limits and offsets.
pub same_query_text :
    (f g : LogFilter)
    → SameFields f g
    → ((count_query f).sql ≡ (count_query g).sql) × ((page_query f).sql ≡ (page_query g).sql)
unfolding count_query page_query
same_query_text f g same =
    let e = texts-asked_for f g same in
    let numbers = number_from-texts 1 (asked_for f) (asked_for g) e in
    let many : length (asked_for f) ≡ length (asked_for g) =
      sym (length-map texts (asked_for f)) ∙ ap length e ∙ length-map texts (asked_for g) in
    rw (conditions_of-asked_for f, conditions_of-asked_for g, numbers, many) (refl, refl)

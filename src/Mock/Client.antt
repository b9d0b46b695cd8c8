-- ===== src/Mock/Client.antt =====
-- `HTTPProvider.Issue` as the client of a mock provider.
use Prim.Native.String.{◌++◌ as append}
use text.Mathlib.TextEquality.{eq_iff}
use mathlib.Core.List.{Memᴰ}
use digital_store.Prelude.Rows.{any_where-Memᴰ}
use digital_store.Prelude.{
  Option-cases, Bool-cases, inl, inr, ℕ, leb, str_eq, if◌then◌else◌, Bool, true, false, ◌&&◌,
  String, some, List, [], ◌∷◌, ◌≡◌, refl, ap, arith, any_where, find_where,
}
use digital_store.Model.{Platform}
use digital_store.Delivery.Provider.{
  ErrorKind, IssueRequest, IssueResponse, Answer, issued, failure, read_response, read_body,
  http_issue, decimal,
}
use digital_store.Mock.{
  Stockroom, Issued, IssueError, gave, refused, response_of, is_given, existing_issue, next_key,
  issue_key, issue_if_new, issue_code,
}
use digital_store.Delivery.Service.Codes.{accepts}
use digital_store.Mock.Stock.{issue_code-again, next_key-available}
use digital_store.Mock.Handler.{Draw, serve_issued, issue_parsed, is_incomplete, issue, reply_to}

-- A code is given in the response that the client expects.
issue_code-response :
    (locked : ℕ → Bool) (now : ℕ) (provider : String) (request : IssueRequest) (order_id : ℕ)
    (fails timeout late : Bool) (r : IssueResponse) (s s' : Stockroom)
    → issue_code locked now provider request order_id fails timeout s ≡ gave r late s'
    → r ≡ response_of request.request_id r.code
unfolding issue_code issue_if_new issue_key
issue_code-response locked now provider request order_id fails timeout late r s s' h =
    elim (Option-cases (existing_issue provider request.request_id s)) [
      | inl e ↦ elim (Option-cases (next_key locked provider request.sku s)) [
        | inl none_left ↦ ground (arith, h, e, none_left)
        | inr (k, given) ↦ ground (arith, h, e, given)
      ]
      | inr (i, e) ↦ ground (arith, h, e)
    ]

-- A row that is found, or is in the table, fails a test that all rows fail.
module _ {A : Type 0} (p : A → Bool) (a : A) where
  none_where-Memᴰ : (xs : List A) → Memᴰ a xs → any_where p xs ≡ false → p a ≡ false
  none_where-Memᴰ xs m h = elim (Bool-cases (p a)) [
    | inl e ↦ elim (let never : ⊥ = ground (arith, h, any_where-Memᴰ p a xs m e) in never) [ ]
    | inr e ↦ e
  ]

  none_where-find_where :
      (q : A → Bool) (xs : List A) → find_where q xs ≡ some a → any_where p xs ≡ false → p a ≡ false
  unfolding find_where any_where
  none_where-find_where q [] e h = cc
  none_where-find_where q (x ∷ xs) e h = ground (arith, none_where-find_where q xs)

-- No code of the stock is empty.
pub record IsCoded (s : Stockroom) : Type 0 where
  pub keys : any_where (λ k. str_eq k.code "") s.provider_keys ≡ false
  pub issues : any_where (λ i. str_eq i.code "") s.provider_issues ≡ false

issue_code-code :
    (locked : ℕ → Bool) (now : ℕ) (provider : String) (request : IssueRequest) (order_id : ℕ)
    (fails timeout late : Bool) (r : IssueResponse) (s s' : Stockroom)
    → IsCoded s
    → issue_code locked now provider request order_id fails timeout s ≡ gave r late s'
    → str_eq r.code "" ≡ false
unfolding issue_code issue_if_new issue_key existing_issue
issue_code-code locked now provider request order_id fails timeout late r s s' c h =
    elim (Option-cases (existing_issue provider request.request_id s)) [
      | inl e ↦ elim (Option-cases (next_key locked provider request.sku s)) [
        | inl none_left ↦ ground (arith, h, e, none_left)
        | inr (k, given) ↦
            let m = (next_key-available locked provider request.sku s k given).0 in
            ground (
              arith,
              h,
              e,
              given,
              c.keys,
              none_where-Memᴰ (λ x. str_eq x.code "") k s.provider_keys m c.keys,
            )
      ]
      | inr (i, e) ↦ ground (
        arith,
        h,
        e,
        c.issues,
        none_where-find_where (λ x. str_eq x.code "") i (is_given provider request.request_id)
            s.provider_issues e c.issues,
      )
    ]

-- A code is given in a response that the client accepts.
issue_code-accepts :
    (draw : Draw) (provider : String) (request : IssueRequest) (order_id : ℕ) (late : Bool)
    (r : IssueResponse) (s s' : Stockroom)
    → IsCoded s
    → issue_code draw.locked draw.now provider request order_id draw.fails draw.timeout s
      ≡ gave r late s'
    → accepts request r ≡ true
issue_code-accepts draw provider request order_id late r s s' c h =
    let e =
      issue_code-response draw.locked draw.now provider request order_id draw.fails draw.timeout
        late r s s' h in
    ground (
      arith,
      (eq_iff r.status "ok").1 (ap (λ (x : IssueResponse). x.status) e),
      (eq_iff r.request_id request.request_id).1 (ap (λ (x : IssueResponse). x.request_id) e),
      issue_code-code draw.locked draw.now provider request order_id draw.fails draw.timeout late r
          s s' c h,
    )

module _ (plat : Platform) (draw : Draw) (provider name : String) (request : IssueRequest)
    (order_id patience sleep : ℕ) (s : Stockroom) where
  abbrev called : Issued
  called = issue_code draw.locked draw.now provider request order_id draw.fails draw.timeout s

  -- What the client is to make of it.
  abbrev pub read_issued : Issued → Answer
  read_issued (gave r late s') =
      if late && leb patience sleep then failure ErrorKind.provider_timeout name "" else issued r
  read_issued (refused IssueError.nothing_left) = failure ErrorKind.out_of_stock name ""
  read_issued (refused IssueError.unavailable) =
      failure ErrorKind.provider_unavailable name (append ", status=" (decimal 503))
  read_issued (refused IssueError.unique) =
      failure ErrorKind.provider_unavailable name (append ", status=" (decimal 500))

  serve_issued-read :
      (i : Issued)
      → ((r : IssueResponse) (late : Bool) (s' : Stockroom)
          → i ≡ gave r late s'
          → accepts request r ≡ true)
      → http_issue name request (reply_to patience sleep (serve_issued s i)) ≡ read_issued i
  unfolding serve_issued http_issue reply_to read_body read_response
  serve_issued-read (gave r late s') h = ground (arith, h r late s' refl)
  serve_issued-read (refused IssueError.nothing_left) h = ground arith
  serve_issued-read (refused IssueError.unavailable) h = ground arith
  serve_issued-read (refused IssueError.unique) h = ground arith

  -- A client reads each answer of the mock provider as what it was: a code as issued, unless the
  -- answer is held back until the client gives up, which is a timeout; an empty stock as out of
  -- stock; and a failure as unavailable. The request is complete, its order id is a UUID, the
  -- database of the mock is up and no code in it is empty.
  pub http_issue-issue :
      IsCoded s
      → is_incomplete request ≡ false
      → plat.parse request.order_id ≡ some order_id
      → draw.down ≡ false
      → http_issue name request
          (reply_to patience sleep (issue plat draw provider (some request) s))
        ≡ read_issued called
  unfolding issue issue_parsed
  http_issue-issue c full parsed up =
      let read =
        serve_issued-read called
          (λ r late s'. issue_code-accepts draw provider request order_id late r s s' c) in
      ground (arith, full, parsed, up, read)

  -- A code that the client lost to a timeout comes with its next call for the same request: the
  -- first call takes a key and is a timeout to the client, the second is given the code of that key
  -- and takes no other, whatever it draws, with the same conditions on the request and the stock.
  pub http_issue-recovers :
      (again : Draw) (r : IssueResponse) (s' : Stockroom)
      → IsCoded s
      → is_incomplete request ≡ false
      → plat.parse request.order_id ≡ some order_id
      → draw.down ≡ false
      → again.down ≡ false
      → leb patience sleep ≡ true
      → called ≡ gave r true s'
      → (http_issue name request
            (reply_to patience sleep (issue plat draw provider (some request) s))
          ≡ failure ErrorKind.provider_timeout name "")
        × ((issue plat draw provider (some request) s).stockroom ≡ s')
        × (http_issue name request
              (reply_to patience sleep (issue plat again provider (some request) s'))
            ≡ issued r)
        × ((issue plat again provider (some request) s').stockroom ≡ s')
  unfolding issue issue_parsed serve_issued http_issue reply_to read_body read_response
  http_issue-recovers again r s' c full parsed up up' long given =
      let fits = issue_code-accepts draw provider request order_id true r s s' c given in
      let same =
        issue_code-again draw.locked again.locked draw.now again.now provider request order_id
          order_id draw.fails draw.timeout again.fails again.timeout true r s s' given in
      (
        ground (arith, full, parsed, up, long, given),
        ground (arith, full, parsed, up, long, given),
        ground (arith, full, parsed, up', same, fits),
        ground (arith, full, parsed, up', same),
      )

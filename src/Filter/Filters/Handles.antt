-- ===== src/Filter/Filters/Handles.antt =====
-- CloseFilter of filter.c: the PID that it returns, which cMcliDevice stops receiving.
use vdr_plugin_mcli.Prelude.{
  ℕ, ◌+◌, ◌≤◌, ◌≡◌, refl, sym, ap, subst, ◌∙◌, ◌⊎◌, inl, inr, Bool, true, false, Bool-cases, Option,
  none, some, Option-cases, List, [], ◌∷◌, leb, ◌==◌, ◌&&◌, if◌then◌else◌, arith,
}
use vdr_plugin_mcli.Filter.PidList.{McliPid, get_tid_from_pid, set_pid}
use vdr_plugin_mcli.Filter.PidList.Laws.{IsMap, get-set_pid}
use vdr_plugin_mcli.Filter.Section.{McliFilter, WriteResult, sent, again, failed, is_closed}
use vdr_plugin_mcli.Filter.Filters.{
  McliFilters, Sockets, get_filter, has_handle, want_pid, uses, get_pid, garbage_collect,
  del_filter, forget_filter, close_filter,
}

pub want_pid-uses : (fs : List McliFilter) (p : ℕ) → want_pid fs p ≡ leb 1 (uses fs p)
unfolding want_pid uses
want_pid-uses [] p = refl
want_pid-uses (f ∷ fs) p = ground (arith, want_pid-uses fs p)

abbrev pid_of : Option McliFilter → ℕ
pid_of none = 0
pid_of (some f) = f.pid

abbrev present : Option McliFilter → Bool
present none = false
present (some f) = true

-- Deleting a filter takes one use off its PID and none off the others.
pub uses-del_filter :
    (fs : List McliFilter) (handle : Option ℕ) (f : McliFilter) (p : ℕ)
    → get_filter fs handle ≡ some f
    → uses fs p ≡ (if p == f.pid then 1 else 0) + uses (del_filter fs handle) p
unfolding uses get_filter del_filter
uses-del_filter [] handle f p e = absurd (grind (arith, ap present e))
uses-del_filter (g ∷ fs) handle f p e = elim (Bool-cases (has_handle g.pipe handle)) [
  | inl h ↦
      let same : g.pid ≡ f.pid =
        ap pid_of (subst (λ b. (if b then some g else get_filter fs handle) ≡ some f) h e) in
      rw h (rw same refl)
  | inr h ↦
      let later : get_filter fs handle ≡ some f =
        subst (λ b. (if b then some g else get_filter fs handle) ≡ some f) h e in
      rw h (omega (arith, uses-del_filter fs handle f p later))
]

-- What IsClosed leaves of a filter keeps its PID.
pub is_closed-pid : (r : WriteResult) (e : Bool) (f : McliFilter) → (is_closed r e f).2.pid ≡ f.pid
unfolding is_closed
is_closed-pid sent e f = ground arith
is_closed-pid again e f = ground arith
is_closed-pid (failed k) e f = ground arith

pub uses-garbage_collect :
    (sockets : Sockets) (e : Bool) (fs : List McliFilter) (p : ℕ)
    → uses (garbage_collect sockets e fs) p ≤ uses fs p
unfolding uses garbage_collect
uses-garbage_collect sockets e [] p = omega arith
uses-garbage_collect sockets e (f ∷ fs) p =
    let (closed, errno, f') = is_closed (sockets f.pipe) e f in
    let ih = uses-garbage_collect sockets errno fs p in
    elim (Bool-cases (closed && errno)) [
      | inl h ↦ rw h (omega (arith, ih))
      | inr h ↦ rw (h, is_closed-pid (sockets f.pipe) e f) (omega (arith, ih))
    ]

get_pid-none :
    (fs : List McliFilter) (handle : Option ℕ)
    → get_filter fs handle ≡ none
    → get_pid fs handle ≡ none
unfolding get_pid
get_pid-none fs handle e = rw (get_pid, e) refl

get_pid-some :
    (fs : List McliFilter) (handle : Option ℕ) (f : McliFilter)
    → get_filter fs handle ≡ some f
    → get_pid fs handle ≡ (if uses fs f.pid == 1 then some f.pid else none)
unfolding get_pid
get_pid-some fs handle f e = rw (get_pid, e) refl

pub forget_filter-kept :
    (handle : Option ℕ) (m : McliFilters)
    → get_pid m.filters handle ≡ none
    → forget_filter handle m ≡ (none, record m { filters = del_filter m.filters handle })
unfolding forget_filter
forget_filter-kept handle m e = rw e refl

pub forget_filter-gone :
    (handle : Option ℕ) (m : McliFilters) (p : ℕ)
    → get_pid m.filters handle ≡ some p
    → forget_filter handle m
      ≡ (some p, record m { pl = set_pid m.pl p none; filters = del_filter m.filters handle })
unfolding forget_filter
forget_filter-gone handle m p e = rw e refl

del_filter-none :
    (fs : List McliFilter) (handle : Option ℕ)
    → get_filter fs handle ≡ none
    → del_filter fs handle ≡ fs
unfolding get_filter del_filter
del_filter-none [] handle e = refl
del_filter-none (g ∷ fs) handle e = elim (Bool-cases (has_handle g.pipe handle)) [
  | inl h ↦ absurd (grind (arith, ap present e))
  | inr h ↦ rw h (
      ap (g ∷◌) (
        del_filter-none fs handle
          (subst (λ b. (if b then some g else get_filter fs handle) ≡ none) h e)))
]

pub uses-del_filter-le :
    (fs : List McliFilter) (handle : Option ℕ) (p : ℕ) → uses (del_filter fs handle) p ≤ uses fs p
unfolding uses del_filter
uses-del_filter-le [] handle p = omega arith
uses-del_filter-le (g ∷ fs) handle p = ground (arith, uses-del_filter-le fs handle p)

-- The PID that GetPid gives is not used without the filter.
pub get_pid-uses :
    (fs : List McliFilter) (handle : Option ℕ) (p : ℕ)
    → get_pid fs handle ≡ some p
    → uses (del_filter fs handle) p ≡ 0
get_pid-uses fs handle p e = elim (Option-cases (get_filter fs handle)) [
  | inl g ↦ absurd (grind (arith, get_pid-none fs handle g, e))
  | inr (f, g) ↦
      let uses_then = uses-del_filter fs handle f p g in
      let pid : (if uses fs f.pid == 1 then some f.pid else none) ≡ some p =
        sym (get_pid-some fs handle f g) ∙ e in
      elim (Bool-cases (uses fs f.pid == 1)) [
        | inl one ↦
            let same : f.pid ≡ p =
              grind (arith, subst (λ b. (if b then some f.pid else none) ≡ some p) one pid) in
            ground (arith, one, same, uses_then)
        | inr more ↦
            absurd (grind (arith, subst (λ b. (if b then some f.pid else none) ≡ some p) more pid))
      ]
]

-- What CloseFilter did for a handle, with the filters that were open when it began: no filter has the
-- handle and nothing changes; or the PID of the filter is returned and forgotten, and no filter wants
-- it any more; or another filter wants the PID, which is not returned.
abbrev pub Closed : List McliFilter → List McliPid → Option ℕ → Option ℕ × McliFilters → Type 0
Closed fs pl handle (pid, m') =
    ((get_filter fs handle ≡ none) × (pid ≡ none) × (m'.filters ≡ fs) × (m'.pl ≡ pl))
    ⊎ ((f : McliFilter) × (get_filter fs handle ≡ some f)
        × (((pid ≡ some f.pid)
              × (want_pid m'.filters f.pid ≡ false)
              × (get_tid_from_pid m'.pl f.pid ≡ none))
            ⊎ ((pid ≡ none) × (want_pid m'.filters f.pid ≡ true) × (m'.pl ≡ pl))))

forget_filter-Closed :
    (handle : Option ℕ) (m : McliFilters)
    → IsMap m.pl
    → Closed m.filters m.pl handle (forget_filter handle m)
forget_filter-Closed handle m m_map = elim (Option-cases (get_filter m.filters handle)) [
  | inl e ↦
      rw (forget_filter-kept handle m (get_pid-none m.filters handle e))
        (inl (e, refl, del_filter-none m.filters handle e, refl))
  | inr (f, e) ↦
      let uses_then = uses-del_filter m.filters handle f f.pid e in
      let pid = get_pid-some m.filters handle f e in
      let wanted = want_pid-uses (del_filter m.filters handle) f.pid in
      elim (Bool-cases (uses m.filters f.pid == 1)) [
        | inl one ↦
            let pid' : get_pid m.filters handle ≡ some f.pid = rw (pid, one) refl in
            rw (forget_filter-gone handle m f.pid pid') (
              inr (
                f,
                e,
                inl (
                  refl,
                  ground (arith, wanted, uses_then),
                  ground (arith, get-set_pid m.pl f.pid f.pid none m_map),
                ),
              ))
        | inr more ↦
            let pid' : get_pid m.filters handle ≡ none = rw (pid, more) refl in
            rw (forget_filter-kept handle m pid')
              (inr (f, e, inr (refl, ground (arith, wanted, uses_then), refl)))
      ]
]

-- CloseFilter returns the PID of its filter if no other filter wants it, and forgets the table that the
-- PID carries; it returns none, and forgets no PID, if another filter wants the PID or no filter has the
-- handle. The filters are those that the garbage collection leaves, and the PIDs of the list distinct.
pub close_filter-Closed :
    (sockets : Sockets) (broken : Bool) (handle : Option ℕ) (m : McliFilters)
    → IsMap m.pl
    → Closed
        (garbage_collect sockets broken m.filters)
        m.pl
        handle
        (close_filter sockets broken handle m)
unfolding close_filter
close_filter-Closed sockets broken handle m m_map =
    forget_filter-Closed handle (record m { filters = garbage_collect sockets broken m.filters })
      m_map

-- ===== src/Planner/Optimizer/Scopes.antt =====
-- The whole of `Optimize`: what it leaves is well scoped.

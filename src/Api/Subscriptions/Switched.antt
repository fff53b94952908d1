-- ===== src/Api/Subscriptions/Switched.antt =====
-- The outcomes of `subscriptionLifecycle` of internal/api/subscriptions.go.

-- ===== src/Server/Ids.antt =====
-- The ids that the service makes up for requests without one.
